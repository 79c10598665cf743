-- ===== src/Redis/Same.antt =====
-- The two clients against each other.
use go_leaderboard.Base.{◌≡◌, refl}
use go_leaderboard.Redis.Defs.{GoRedis}
use go_leaderboard.Redis.Standalone as Standalone
use go_leaderboard.Redis.Cluster as Cluster

-- Over the same go-redis, every operation of the cluster client is that of the standalone client.
pub cluster-client-standalone :
    {W : Type 0} (c : GoRedis W) → Cluster.client c ≡ Standalone.client c
unfolding Cluster.del Cluster.exists Cluster.expire_at Cluster.ping Cluster.sadd Cluster.smembers
    Cluster.srem Cluster.ttl Cluster.zadd Cluster.zcard Cluster.zincrby Cluster.zrange
    Cluster.zrange_by_score Cluster.zrank Cluster.zrem Cluster.zrevrange Cluster.zrevrange_by_score
    Cluster.zrevrank Cluster.zscore Standalone.del Standalone.exists Standalone.expire_at
    Standalone.ping Standalone.sadd Standalone.smembers Standalone.srem Standalone.ttl
    Standalone.zadd Standalone.zcard Standalone.zincrby Standalone.zrange Standalone.zrange_by_score
    Standalone.zrank Standalone.zrem Standalone.zrevrange Standalone.zrevrange_by_score
    Standalone.zrevrank Standalone.zscore
cluster-client-standalone c = refl
