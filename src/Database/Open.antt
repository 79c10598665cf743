-- ===== src/Database/Open.antt =====
-- NewRedisDatabase and the constructors of the two clients; goredis.NewClient and NewClusterClient
-- are parameters.
use go_leaderboard.Base.{Bool, if◌then◌else◌, List, ◌++◌}
use go_leaderboard.Base.Int.{ℤ}
use go_leaderboard.Base.Bytes.{Text, codes}
use go_leaderboard.Go.Strconv.{format_int}
use go_leaderboard.Redis.Defs.{GoRedis, Client}
use go_leaderboard.Redis.Standalone as Standalone
use go_leaderboard.Redis.Cluster as Cluster

pub record Dial (W : Type 0) : Type 0 where
  -- Address, password and number of the database.
  pub new_client : Text → Text → ℤ → GoRedis W
  pub new_cluster_client : List Text → Text → GoRedis W

pub record StandaloneOptions : Type 0 where
  pub host : Text
  pub port : ℤ
  pub password : Text
  pub db : ℤ

pub record ClusterOptions : Type 0 where
  pub addrs : List Text
  pub password : Text

pub record RedisOptions : Type 0 where
  pub cluster_enabled : Bool
  pub addrs : List Text
  pub host : Text
  pub port : ℤ
  pub password : Text
  pub db : ℤ

module _ {W : Type 0} (dial : Dial W) where
  unfoldable pub new_standalone_client : StandaloneOptions → Client W
  new_standalone_client options = Standalone.client (
      dial.new_client (options.host ++ (codes ":" ++ format_int options.port)) options.password
        options.db)

  unfoldable pub new_cluster_client : ClusterOptions → Client W
  new_cluster_client options =
      Cluster.client (dial.new_cluster_client options.addrs options.password)

  unfoldable pub new_redis_database : RedisOptions → Client W
  unfolding new_standalone_client new_cluster_client
  new_redis_database options =
      if options.cluster_enabled
      then new_cluster_client (record { addrs = options.addrs; password = options.password })
      else new_standalone_client (record {
        host = options.host;
        port = options.port;
        password = options.password;
        db = options.db;
      })
