-- ===== src/Cmd/Served.antt =====
-- What the start command comes to once the application is made.
use go_leaderboard.Base.{Bool, ◌≡◌, refl}
use go_leaderboard.Base.Int.{ℤ}
use go_leaderboard.Base.Effect.{Outcome, ok, err}
use go_leaderboard.Base.Bytes.{Text, codes}
use go_leaderboard.Go.Float.{Float64}
use go_leaderboard.Go.Time.{Time}
use go_leaderboard.Config.{Viper}
use go_leaderboard.Log.{Level}
use go_leaderboard.Database.Open.{Dial}
use go_leaderboard.Api.Start.{Servers, First, signalled, failed, stopped, start, after_first}
use go_leaderboard.Api.Configure.{Vendors, Application, new_app}
use go_leaderboard.Cmd.Start.{Fatal, start_cmd}

-- How the command ends, by what the application waited for.
abbrev pub ending : First → Outcome Fatal (Unit {0})
ending signalled = ok tt
ending stopped = ok tt
ending (failed e) =
    err (record { message = codes "Could not start podium application."; cause = e })

module _ {V W N D : Type 0} (viper : Viper V) (get_float64 : V → Text → Float64) (dial : Dial W)
    (clock : W → Time × W) (vendors : Vendors V W N D) (create_logger_with_level : Level → W → W)
    (servers : Application V W N D → Servers W) where
  -- With both listeners open, a signal ends the command without an error, and an error of a server
  -- is fatal.
  pub start_cmd-ending :
      (first : First) (host : Text) (http_port grpc_port : ℤ) (config_file : Text)
      (debug quiet : Bool) (w : W) (app : Application V W N D) (grpc http : Text)
      → ((v : W)
          → (new_app viper get_float64 dial clock vendors host http_port grpc_port config_file debug
              v).0
            ≡ ok app)
      → ((v : W) → ((servers app).listen_grpc v).0 ≡ ok grpc)
      → ((v : W) → ((servers app).listen_http v).0 ≡ ok http)
      → (start_cmd viper get_float64 dial clock vendors create_logger_with_level servers first host
          http_port grpc_port config_file debug quiet w).0
        ≡ ending first
  unfolding start_cmd start after_first
  start_cmd-ending signalled host hp gp c d q w app grpc http made g h =
      rw (made _) (rw (g _) (rw (h _) refl))
  start_cmd-ending stopped host hp gp c d q w app grpc http made g h =
      rw (made _) (rw (g _) (rw (h _) refl))
  start_cmd-ending (failed e) host hp gp c d q w app grpc http made g h =
      rw (made _) (rw (g _) (rw (h _) refl))
