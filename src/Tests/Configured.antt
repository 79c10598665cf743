-- ===== src/Tests/Configured.antt =====
-- An application made in memory, with a jaeger that fails.
use go_leaderboard.Base.{◌≡◌, refl, [], false}
use go_leaderboard.Base.Int.{pos}
use go_leaderboard.Base.Effect.{ok, err}
use go_leaderboard.Base.Bytes.{Text, codes, eq}
use go_leaderboard.Go.Float.{Float64, of_int}
use go_leaderboard.Config.{Viper}
use go_leaderboard.Database.Open.{Dial, new_redis_database}
use go_leaderboard.Redis.Server.{Store, memory, clock}
use go_leaderboard.Api.Configure.{Vendors, new_app}
use go_leaderboard.Api.Start.{load_configuration, create_leaderboard_client}
use go_leaderboard.Service.Reads.{healthcheck}
use go_leaderboard.Database.Scores as Scores
use go_leaderboard.Redis.Standalone as Standalone
use go_leaderboard.Api.Configured.{built, new_app-made}
use go_leaderboard.Worker.Setup.{redis_options}
use go_leaderboard.Tests.Board.{store}

abbrev viper : Viper (Unit {0})
viper = record {
  new = tt;
  set_config_file = λ path c. c;
  set_env_key_replacer = λ a b c. c;
  set_env_prefix = λ p c. c;
  add_config_path = λ p c. c;
  automatic_env = λ c. c;
  read_in_config = λ c. ok c;
  set_default = λ k v c. c;
  get_string = λ c k. [];
  get_int = λ c k. pos 0;
  get_bool = λ c k. false;
  get_duration = λ c k. pos 0;
  get_string_slice = λ c k. [];
}

abbrev dial : Dial Store
dial = record {
  new_client = λ address password db. memory;
  new_cluster_client = λ addrs password. memory;
}

abbrev vendors : Vendors (Unit {0}) Store (Unit {0}) (Unit {0})
vendors = record {
  new_uuid = λ w. (codes "id", w);
  log = λ level message w. w;
  jaeger_configure = λ disabled p name w. (err (codes "no agent"), w);
  set_dsn = λ url w. w;
  new_dog_statsd = λ c w. (ok tt, w);
  new_relic_application = λ name key disabled w. (ok tt, w);
  new_ewma15 = λ w. w;
  spawn = λ steps w. w;
}

abbrev no_float : Unit {0} → Text → Float64
no_float c key = of_int (pos 0)

made_without_jaeger :
    (new_app viper no_float dial clock vendors
      (codes "127.0.0.1")
      (pos 8880)
      (pos 8881)
      (codes "local.yaml")
      false
      store).0
    ≡ ok (
        built viper dial clock tt tt tt
          (codes "127.0.0.1")
          (pos 8880)
          (pos 8881)
          (codes "local.yaml")
          false
          (codes "id"))
unfolding memory healthcheck create_leaderboard_client load_configuration new_redis_database
    Scores.healthcheck Standalone.ping eq redis_options
made_without_jaeger =
    new_app-made viper no_float dial clock vendors tt tt tt (λ w h. cc) (λ w. refl) (λ k b w. refl)
      (λ w. refl) (codes "127.0.0.1") (pos 8880) (pos 8881) (codes "local.yaml") false store refl
