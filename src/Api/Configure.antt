-- ===== src/Api/Configure.antt =====
-- New and configure of api/app.go. raven, jaeger, New Relic, DogStatsD, the uuid, the rate of the
-- errors and the logger are parameters; of a log entry its level and message are kept. What New
-- logs of the service is left out. A goroutine is the list of the steps that it takes.
use go_leaderboard.Base.{Bool, if◌then◌else◌, List, [], ◌∷◌, ◌++◌}
use go_leaderboard.Base.Int.{ℤ, pos}
use go_leaderboard.Base.Effect.{M, ok, err, pure, fail, handle, ◌>>=◌, ◌>>◌}
use go_leaderboard.Base.Bytes.{Text, codes, eq}
use go_leaderboard.Go.Float.{Float64}
use go_leaderboard.Go.Strconv.{format_int}
use go_leaderboard.Go.Time.{Time}
use go_leaderboard.Config.{Viper}
use go_leaderboard.Log.{Level, info_level, error_level}
use go_leaderboard.Database.Open.{Dial}
use go_leaderboard.Service.Errors.{message}
use go_leaderboard.Service.Defs.{Service}
use go_leaderboard.Api.Start.{
  set_configuration_defaults, load_configuration, create_and_configure_leaderboard_client,
}

pub data Step : Type 0 where
  tick : Step
  -- In nanoseconds.
  sleep : ℤ → Step

-- N is newrelic.Application and D is *DogStatsD.
pub record Vendors (V W N D : Type 0) : Type 0 where
  pub new_uuid : W → Text × W
  pub log : Level → Text → W → W
  -- jaeger.Configure of Disabled, Probability and ServiceName.
  pub jaeger_configure : Bool → Float64 → Text → M W Text (Unit {0})
  -- raven.SetDSN, whose error is dropped.
  pub set_dsn : Text → W → W
  pub new_dog_statsd : V → M W Text D
  -- newrelic.NewApplication of a name and a key, and whether Enabled was set to false.
  pub new_relic_application : Text → Text → Bool → M W Text N
  pub new_ewma15 : W → W
  pub spawn : List Step → W → W

-- What configure fills in.
pub record Parts (V W N D : Type 0) : Type 0 where
  pub config : V
  pub leaderboards : Service W
  pub new_relic : N
  pub dd_stats_d : D

-- The fields of App, without the servers and the channels.
pub record Application (V W N D : Type 0) : Type 0 where
  pub http_endpoint : Text
  pub grpc_endpoint : Text
  pub config_path : Text
  pub debug : Bool
  pub id : Text
  pub parts : Parts V W N D

unfoldable pub endpoint : Text → ℤ → Text
endpoint host port = host ++ (codes ":" ++ format_int port)

module _ {V W N D : Type 0} (viper : Viper V) (get_float64 : V → Text → Float64) (dial : Dial W)
    (clock : W → Time × W) (vendors : Vendors V W N D) where
  -- A step that logs.
  info : {A : Type 0} → Text → A → M W Text A
  info text a w = (ok a, vendors.log info_level text w)

  unfoldable pub configure_jaeger : V → M W Text (Unit {0})
  configure_jaeger c =
      handle
        (vendors.jaeger_configure (viper.get_bool c (codes "jaeger.disabled"))
          (get_float64 c (codes "jaeger.samplingProbability")) (codes "podium"))
        (λ e w. (ok tt, vendors.log error_level (codes "Failed to initialize Jaeger.") w)) pure

  unfoldable pub configure_sentry : V → W → W
  configure_sentry c w =
      vendors.log info_level (codes "Configured sentry successfully.")
        (vendors.set_dsn (viper.get_string c (codes "sentry.url")) w)

  unfoldable pub configure_stats_d : V → M W Text D
  unfolding info
  configure_stats_d c =
      handle (vendors.new_dog_statsd c)
        (λ e w. (err e, vendors.log error_level (codes "Failed to initialize DogStatsD.") w))
        (info (codes "Configured StatsD successfully."))

  unfoldable pub configure_new_relic : V → M W Text N
  unfolding info eq
  configure_new_relic c w =
      let new_relic_key = viper.get_string c (codes "newrelic.key") in
      let disabled = eq new_relic_key [] in
      handle (vendors.new_relic_application (codes "Podium") new_relic_key disabled)
        (λ e w'. (err e, vendors.log error_level (codes "Failed to initialize New Relic.") w'))
        (info (codes "Initialized New Relic successfully."))
        (if disabled then vendors.log info_level (codes "New Relic is not enabled..") w else w)

  -- The goroutine is no loop: the rate of the errors gets one tick.
  unfoldable pub configure_application : V → M W Text (Service W)
  unfolding info
  configure_application c w =
      handle (create_and_configure_leaderboard_client viper dial clock c) (λ e. fail (message e))
        (info (codes "Leaderboard client creation successfull."))
        (vendors.spawn (tick ∷ sleep (pos 5000000000) ∷ []) (vendors.new_ewma15 w))

  -- The steps after the configuration is loaded.
  unfoldable pub configure_parts : V → M W Text (Parts V W N D)
  unfolding configure_jaeger configure_sentry configure_stats_d configure_new_relic
      configure_application
  configure_parts c = do
    configure_jaeger c
    (λ w. (ok tt, configure_sentry c w))
    d ← configure_stats_d c
    n ← configure_new_relic c
    s ← configure_application c
    pure (record { config = c; leaderboards = s; new_relic = n; dd_stats_d = d })

  unfoldable pub configure : Text → V → M W Text (Parts V W N D)
  unfolding configure_parts info
  configure config_path c = do
    c' ← λ w. (
      load_configuration viper dial clock config_path
          (set_configuration_defaults viper dial clock c),
      w,
    )
    info (codes "Loaded config file.") tt
    configure_parts c'

  -- New
  unfoldable pub new_app : Text → ℤ → ℤ → Text → Bool → M W Text (Application V W N D)
  unfolding configure endpoint
  new_app host http_port grpc_port config_path debug w =
      let (id, w') = vendors.new_uuid w in
      handle (configure config_path viper.new) fail
        (λ parts. pure (record {
          http_endpoint = endpoint host http_port;
          grpc_endpoint = endpoint host grpc_port;
          config_path = config_path;
          debug = debug;
          id = id;
          parts = parts;
        }))
        w'
