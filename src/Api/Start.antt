-- ===== src/Api/Start.antt =====
-- Start and GracefullStop of api/app.go, the service that the application makes, and its defaults. The
-- listeners, the servers, the sleep and the logger are parameters; what Start waits for is its argument.
use go_leaderboard.Base.{true, false, Option, none, some, ◌++◌}
use go_leaderboard.Base.Int.{ℤ, pos}
use go_leaderboard.Base.Effect.{M, Outcome, ok, err, panic, pure, fail, handle, ◌>>◌}
use go_leaderboard.Base.Bytes.{Text, codes}
use go_leaderboard.Go.Time.{Time}
use go_leaderboard.Config.{Viper, text, int, flag}
use go_leaderboard.Database.Open.{Dial, new_redis_database}
use go_leaderboard.Database.Redis.{redis_database}
use go_leaderboard.Service.Errors.{ServiceError}
use go_leaderboard.Service.Defs.{Service}
use go_leaderboard.Service.Reads.{healthcheck}
use go_leaderboard.Worker.Setup.{redis_options}

-- `serve` starts both servers; `stop_grpc` and `shutdown_http` do nothing for a server that has not
-- been made.
pub record Servers (W : Type 0) : Type 0 where
  pub listen_grpc : M W Text Text
  pub listen_http : M W Text Text
  pub serve : W → W
  pub stop_grpc : W → W
  pub shutdown_http : W → Option Text × W
  pub log_error : Text → Text → W → W
  -- In milliseconds.
  pub sleep : ℤ → W → W

-- What comes first: a signal, an error of a server, or the end of both.
pub data First : Type 0 where
  signalled : First
  failed : Text → First
  stopped : First

module _ {W : Type 0} (servers : Servers W) where
  unfoldable pub log_shutdown : Option Text × W → W
  log_shutdown (none, w) = w
  log_shutdown (some e, w) = servers.log_error (codes "HTTP server Shutdown.") e w

  unfoldable pub gracefull_stop : W → W
  unfolding log_shutdown
  gracefull_stop w = log_shutdown (servers.shutdown_http (servers.stop_grpc w))

  unfoldable pub after_first : ℤ → First → M W Text (Unit {0})
  unfolding gracefull_stop
  after_first grace_period signalled w = (ok tt, servers.sleep grace_period (gracefull_stop w))
  after_first grace_period (failed e) w =
      (err e, servers.log_error (codes "Err on start server") e w)
  after_first grace_period stopped w = (ok tt, w)

  -- A listener that is open when the other fails stays open.
  unfoldable pub start : ℤ → First → M W Text (Unit {0})
  unfolding after_first
  start grace_period first =
      handle servers.listen_grpc (λ e. fail (codes "error trying to listen for connections: " ++ e))
        λ grpc_address.
          handle servers.listen_http (λ e. fail (codes "error listening on HTTPEndpoint: " ++ e))
            λ http_address w. after_first grace_period first (servers.serve w)

module _ {V W : Type 0} (viper : Viper V) (dial : Dial W) (clock : W → Time × W) where
  unfoldable pub set_configuration_defaults : V → V
  set_configuration_defaults c =
      let set = viper.set_default in
      let c = set (codes "healthcheck.workingText") (text (codes "WORKING")) c in
      let c = set (codes "graceperiod.ms") (int (pos 50)) c in
      let c = set (codes "api.maxReturnedMembers") (int (pos 2000)) c in
      let c = set (codes "api.maxReadBufferSize") (int (pos 32000)) c in
      let c = set (codes "redis.host") (text (codes "localhost")) c in
      let c = set (codes "redis.port") (int (pos 6379)) c in
      let c = set (codes "redis.password") (text (codes "")) c in
      let c = set (codes "redis.db") (int (pos 0)) c in
      let c = set (codes "redis.connectionTimeout") (int (pos 200)) c in
      let c = set (codes "jaeger.disabled") (flag true) c in
      -- The probability of the samples, a float, is not modelled.
      set (codes "redis.cluster.enabled") (flag false) c

  unfoldable pub load_configuration : Text → V → Outcome Text V
  load_configuration config_path c =
      let c = viper.set_env_prefix (codes "podium") (viper.set_config_file config_path c) in
      let c = viper.automatic_env (viper.set_env_key_replacer (codes ".") (codes "_") c) in
      elim (viper.read_in_config c) [
        | ok c ↦ ok c
        | err e ↦ err (codes "Could not load configuration file from: " ++ config_path)
        | panic ↦ panic
      ]

  unfoldable pub create_leaderboard_client : V → Service W
  create_leaderboard_client c = record {
    database = redis_database (new_redis_database dial (redis_options viper dial clock c));
    clock = clock;
  }

  unfoldable pub create_and_configure_leaderboard_client : V → M W ServiceError (Service W)
  unfolding create_leaderboard_client
  create_and_configure_leaderboard_client c =
      let client = create_leaderboard_client c in do healthcheck client; pure client
