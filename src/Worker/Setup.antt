-- ===== src/Worker/Setup.antt =====
-- How a worker is made: GetExpirationWorker, NewExpirationWorker and what they call.
use go_leaderboard.Base.{◌≡◌, refl}
use go_leaderboard.Base.Int.{ℤ, pos}
use go_leaderboard.Base.Effect.{Outcome, ok, err, panic}
use go_leaderboard.Base.Bytes.{Text, codes}
use go_leaderboard.Go.Time.{Time}
use go_leaderboard.Config.{Viper, text, int, get_default_config}
use go_leaderboard.Database.Open.{Dial, RedisOptions, new_redis_database}
use go_leaderboard.Database.Redis.{redis_expiration}
use go_leaderboard.Worker.{Worker}

-- The worker with the fields that a tick does not use.
pub record Configured (V W : Type 0) : Type 0 where
  pub config : V
  pub config_path : Text
  pub expiration_check_interval : ℤ
  pub worker : Worker W

module _ {V W : Type 0} (viper : Viper V) (dial : Dial W) (clock : W → Time × W) where
  unfoldable pub set_configuration_defaults : V → V
  set_configuration_defaults c =
      let set = viper.set_default in
      let c = set (codes "redis.clusterEnabled") (text (codes "false")) c in
      let c = set (codes "redis.addrs") (text (codes "")) c in
      let c = set (codes "redis.host") (text (codes "localhost")) c in
      let c = set (codes "redis.port") (text (codes "6379")) c in
      let c = set (codes "redis.password") (text (codes "")) c in
      let c = set (codes "redis.db") (int (pos 0)) c in
      let c = set (codes "redis.maxPoolSize") (int (pos 20)) c in
      let c = set (codes "worker.expirationCheckInterval") (text (codes "60s")) c in
      set (codes "worker.expirationLimitPerRun") (text (codes "1000")) c

  unfoldable pub redis_options : V → RedisOptions
  redis_options c = record {
    cluster_enabled = viper.get_bool c (codes "redis.cluster.enabled");
    addrs = viper.get_string_slice c (codes "redis.addrs");
    host = viper.get_string c (codes "redis.host");
    port = viper.get_int c (codes "redis.port");
    password = viper.get_string c (codes "redis.password");
    db = viper.get_int c (codes "redis.db");
  }

  unfoldable pub configure : Text → V → Configured V W
  unfolding set_configuration_defaults redis_options
  configure config_path loaded =
      let c = set_configuration_defaults loaded in
      record {
        config = c;
        config_path = config_path;
        expiration_check_interval = viper.get_duration c (codes "worker.expirationCheckInterval");
        worker = record {
          database = redis_expiration (new_redis_database dial (redis_options c));
          clock = clock;
          expiration_limit_per_run = viper.get_int c (codes "worker.expirationLimitPerRun");
        };
      }

  unfoldable pub load_configuration : Text → Outcome Text V
  load_configuration config_path = get_default_config viper config_path

  unfoldable pub configured : Text → Outcome Text V → Outcome Text (Configured V W)
  unfolding configure
  configured config_path (ok c) = ok (configure config_path c)
  configured config_path (err e) = err e
  configured config_path panic = panic

  unfoldable pub get_expiration_worker : Text → Outcome Text (Configured V W)
  unfolding configured load_configuration
  get_expiration_worker config_path = configured config_path (load_configuration config_path)

  -- The host, port, password, database, interval and limit are not looked at.
  unfoldable pub new_expiration_worker : Text → ℤ → Text → ℤ → ℤ → ℤ → Outcome Text (Configured V W)
  unfolding configured load_configuration
  new_expiration_worker host port password db expiration_check_interval expiration_limit_per_run =
      let config_path = codes "../config/default.yaml" in
      configured config_path (load_configuration config_path)

  -- Two workers that should differ are the same.
  pub new_expiration_worker_ignores :
      (host host' : Text) (port port' : ℤ) (password password' : Text) (db db' i i' n n' : ℤ)
      → new_expiration_worker host port password db i n
        ≡ new_expiration_worker host' port' password' db' i' n'
  unfolding new_expiration_worker
  new_expiration_worker_ignores host host' port port' password password' db db' i i' n n' = refl
