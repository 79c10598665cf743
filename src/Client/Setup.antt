-- ===== src/Client/Setup.antt =====
-- NewPodium, getHTTPClient and getHTTPTransport. The http.Client that they make is a value; the global
-- variables `client` and `once` are the state, none before the first call.
use go_leaderboard.Base.{Bool, if◌then◌else◌, Option, none, some, ◌≡◌, refl}
use go_leaderboard.Base.Int.{ℤ, pos}
use go_leaderboard.Base.Bytes.{Text, codes}
use go_leaderboard.Config.{Viper, duration, int}

pub data Transport : Type 0 where
  default_transport : Transport
  custom :
      (dial_timeout keep_alive max_idle_conns idle_conn_timeout tls_handshake_timeout
        expect_continue_timeout max_idle_conns_per_host : ℤ)
      → Transport

pub record HttpClient : Type 0 where
  pub transport : Transport
  pub timeout : ℤ

pub record Made (V : Type 0) : Type 0 where
  pub http_client : HttpClient
  pub config : V
  pub url : Text
  pub user : Text
  pub pass : Text

-- `standard` says that http.DefaultTransport is a *http.Transport, which it is but for tests.
unfoldable pub get_http_transport : Bool → ℤ → ℤ → Transport
get_http_transport standard max_idle_conns max_idle_conns_per_host =
    if standard
    then custom (pos 30000000000) (pos 30000000000) max_idle_conns (pos 90000000000)
        (pos 10000000000) (pos 1000000000) max_idle_conns_per_host
    else default_transport

-- `instrument` is ehttp.Instrument, which is no part of the repository.
unfoldable pub get_http_client :
    (HttpClient → HttpClient)
    → Bool
    → ℤ
    → ℤ
    → ℤ
    → Option HttpClient
    → HttpClient × Option HttpClient
unfolding get_http_transport
get_http_client instrument standard timeout max_idle_conns max_idle_conns_per_host (some c) =
    (c, some c)
get_http_client instrument standard timeout max_idle_conns max_idle_conns_per_host none =
    let made : HttpClient = record {
      transport = get_http_transport standard max_idle_conns max_idle_conns_per_host;
      timeout = timeout;
    } in
    let c = instrument made in (c, some c)

module _ {V : Type 0} (viper : Viper V) (instrument : HttpClient → HttpClient)
    (standard : Bool) where
  -- http.DefaultMaxIdleConnsPerHost is 2.
  unfoldable pub with_defaults : V → V
  with_defaults c =
      let c = viper.set_default (codes "podium.timeout") (duration (pos 1000000000)) c in
      let c = viper.set_default (codes "podium.maxIdleConnsPerHost") (int (pos 2)) c in
      viper.set_default (codes "podium.maxIdleConns") (int (pos 100)) c

  unfoldable pub new_podium : V → Option HttpClient → Made V × Option HttpClient
  unfolding with_defaults get_http_client
  new_podium config shared =
      let c = with_defaults config in
      let (made, shared') =
        get_http_client instrument standard (viper.get_duration c (codes "podium.timeout"))
          (viper.get_int c (codes "podium.maxIdleConns"))
          (viper.get_int c (codes "podium.maxIdleConnsPerHost")) shared in
      (
        record {
          http_client = made;
          config = c;
          url = viper.get_string c (codes "podium.url");
          user = viper.get_string c (codes "podium.user");
          pass = viper.get_string c (codes "podium.pass");
        },
        shared',
      )

  -- The second client of a program has the timeouts of the first, whatever its configuration.
  pub new_podium-new_podium :
      (first second : V)
      → let (made, shared) = new_podium first none in
        (new_podium second shared).0.http_client ≡ made.http_client
  unfolding new_podium get_http_client
  new_podium-new_podium first second = refl
