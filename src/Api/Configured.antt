-- ===== src/Api/Configured.antt =====
-- What New of api/app.go needs to give an application.
use go_leaderboard.Base.{Bool, ◌≡◌, refl, inl, inr}
use go_leaderboard.Base.Int.{ℤ}
use go_leaderboard.Base.Effect.{M, ok, panic, handle, Outcome-cases}
use go_leaderboard.Base.Bytes.{Text, codes}
use go_leaderboard.Go.Float.{Float64}
use go_leaderboard.Go.Time.{Time}
use go_leaderboard.Config.{Viper}
use go_leaderboard.Database.Open.{Dial}
use go_leaderboard.Service.Reads.{healthcheck}
use go_leaderboard.Api.Start.{
  set_configuration_defaults, load_configuration, create_leaderboard_client,
  create_and_configure_leaderboard_client,
}
use go_leaderboard.Api.Configure.{
  Vendors, Parts, Application, configure_jaeger, configure_stats_d, configure_new_relic,
  configure_application, configure_parts, configure, new_app, endpoint,
}

-- After a call that succeeds.
handle-ok :
    {W E F A B : Type 0} (m : M W E A) (h : E → M W F B) (k : A → M W F B) (w : W) (a : A)
    → (m w).0 ≡ ok a
    → handle m h k w ≡ k a (m w).1
handle-ok m h k w a e = rw e refl

module _ {V W N D : Type 0} (viper : Viper V) (dial : Dial W) (clock : W → Time × W) (c : V) (d : D)
    (n : N) where
  abbrev pub made : Parts V W N D
  made = record {
    config = c;
    leaderboards = create_leaderboard_client viper dial clock c;
    new_relic = n;
    dd_stats_d = d;
  }

  -- The application that New gives: the endpoints are the host and the ports as asked for.
  abbrev pub built : Text → ℤ → ℤ → Text → Bool → Text → Application V W N D
  built host http_port grpc_port config_path debug id = record {
    http_endpoint = endpoint host http_port;
    grpc_endpoint = endpoint host grpc_port;
    config_path = config_path;
    debug = debug;
    id = id;
    parts = made;
  }

module _ {V W N D : Type 0} (viper : Viper V) (get_float64 : V → Text → Float64) (dial : Dial W)
    (clock : W → Time × W) (vendors : Vendors V W N D) (c : V) (d : D) (n : N)
    (jaeger : (w : W)
      → (vendors.jaeger_configure
          (viper.get_bool c (codes "jaeger.disabled"))
          (get_float64 c (codes "jaeger.samplingProbability"))
          (codes "podium")
          w).0
        ≡ panic
      → ⊥)
    (statsd : (w : W) → (vendors.new_dog_statsd c w).0 ≡ ok d)
    (relic : (key : Text) (disabled : Bool) (w : W)
      → (vendors.new_relic_application (codes "Podium") key disabled w).0 ≡ ok n)
    (healthy : (w : W)
      → (healthcheck (create_leaderboard_client viper dial clock c) w).0 ≡ ok tt) where
  jaeger-tolerated : (w : W) → (configure_jaeger viper get_float64 dial clock vendors c w).0 ≡ ok tt
  unfolding configure_jaeger
  jaeger-tolerated w =
      elim (Outcome-cases
        (vendors.jaeger_configure (viper.get_bool c (codes "jaeger.disabled"))
          (get_float64 c (codes "jaeger.samplingProbability")) (codes "podium") w).0) [
            | inl (a, e) ↦ rw e refl
            | inr (inl (x, e)) ↦ rw e refl
            | inr (inr e) ↦ absurd (jaeger w e)
          ]

  stats_d-made : (w : W) → (configure_stats_d viper get_float64 dial clock vendors c w).0 ≡ ok d
  unfolding configure_stats_d
  stats_d-made w = rw (statsd w) refl

  new_relic-made : (w : W) → (configure_new_relic viper get_float64 dial clock vendors c w).0 ≡ ok n
  unfolding configure_new_relic
  new_relic-made w = rw (relic _ _ _) refl

  application-made :
      (w : W)
      → (configure_application viper get_float64 dial clock vendors c w).0
        ≡ ok (create_leaderboard_client viper dial clock c)
  unfolding configure_application create_and_configure_leaderboard_client
  application-made w = rw (healthy _) refl

  parts-made :
      (w : W)
      → (configure_parts viper get_float64 dial clock vendors c w).0
        ≡ ok (made viper dial clock c d n)
  unfolding configure_parts
  parts-made w =
      rw (jaeger-tolerated _)
        (rw (stats_d-made _) (rw (new_relic-made _) (rw (application-made _) refl)))

  -- If the configuration loads, DogStatsD and New Relic can be made, the service answers its
  -- health check and jaeger does not panic, New gives the application with the endpoints
  -- host:port, the loaded configuration and the service that it makes, whether jaeger can be set
  -- up or not.
  pub new_app-made :
      (host : Text) (http_port grpc_port : ℤ) (config_path : Text) (debug : Bool) (w : W)
      → load_configuration viper dial clock config_path
          (set_configuration_defaults viper dial clock viper.new)
        ≡ ok c
      → (new_app viper get_float64 dial clock vendors host http_port grpc_port config_path debug
          w).0
        ≡ ok (
            built viper dial clock c d n host http_port grpc_port config_path debug
              (vendors.new_uuid w).0)
  unfolding new_app configure
  new_app-made host http_port grpc_port config_path debug w loaded =
      rw loaded (rw (parts-made _) refl)
