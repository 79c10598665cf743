-- ===== src/Cmd/Start.antt =====
-- cmd/start.go and cmd/worker.go: what the two commands run. The flags are arguments, and so is what
-- the application waits for; log.CreateLoggerWithLevel is a parameter.
use go_leaderboard.Base.{Bool, if◌then◌else◌}
use go_leaderboard.Base.Int.{ℤ}
use go_leaderboard.Base.Effect.{M, ok, wrap_err, ◌>>=◌, ◌>>◌}
use go_leaderboard.Base.Bytes.{Text, codes}
use go_leaderboard.Go.Float.{Float64}
use go_leaderboard.Go.Time.{Time}
use go_leaderboard.Config.{Viper}
use go_leaderboard.Log.{Level, debug_level, info_level, warn_level, error_level}
use go_leaderboard.Database.Open.{Dial}
use go_leaderboard.Worker.{Event, results, error}
use go_leaderboard.Worker.Setup.{Configured, get_expiration_worker}
use go_leaderboard.Api.Start.{Servers, First, start}
use go_leaderboard.Api.Configure.{Vendors, Application, new_app}

-- logger.Fatal, which ends the program: the message and the error.
pub record Fatal : Type 0 where
  pub message : Text
  pub cause : Text

abbrev fatal : Text → Text → Fatal
fatal message cause = record { message = message; cause = cause }

-- -q wins over -d.
unfoldable pub log_level : Bool → Bool → Level
log_level debug quiet = if quiet then warn_level else if debug then debug_level else info_level

module _ {V W N D : Type 0} (viper : Viper V) (get_float64 : V → Text → Float64) (dial : Dial W)
    (clock : W → Time × W) (vendors : Vendors V W N D)
    (create_logger_with_level : Level → W → W) where
  unfoldable pub start_cmd :
      (Application V W N D → Servers W)
      → First
      → Text
      → ℤ
      → ℤ
      → Text
      → Bool
      → Bool
      → M W Fatal (Unit {0})
  unfolding log_level
  start_cmd servers first host http_port grpc_port config_file debug quiet = do
    (λ w. (ok tt, create_logger_with_level (log_level debug quiet) w))
    app ←
        wrap_err (fatal (codes "Could not get podium application."))
          (new_app viper get_float64 dial clock vendors host http_port grpc_port config_file debug)
    wrap_err (fatal (codes "Could not start podium application."))
        (start (servers app) (viper.get_int app.parts.config (codes "graceperiod.ms")) first)

  -- The goroutine that receives from the two channels.
  unfoldable pub log_event : Event → W → W
  log_event (results expirations) = vendors.log debug_level (codes "expiration results")
  log_event (error e) = vendors.log error_level (codes "error from worker")

  -- The worker that is run.
  unfoldable pub worker_cmd : Text → Bool → Bool → M W Fatal (Configured V W)
  unfolding log_level
  worker_cmd config_file debug quiet = do
    (λ w. (
      ok tt,
      vendors.log info_level (codes "Starting podium score expirer worker...")
          (create_logger_with_level (log_level debug quiet) w),
    ))
    wrap_err (fatal (codes "Could not get podium worker."))
        (λ w. (get_expiration_worker viper dial clock config_file, w))
