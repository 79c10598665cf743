-- ===== src/Redis/Standalone.antt =====
-- leaderboard/database/redis/standalone_client.go: the type standaloneClient, a Client over go-redis.
use go_leaderboard.Base.{ℕ, if◌then◌else◌, ◌==◌, List, map}
use go_leaderboard.Base.Int.{ℤ, eqb_ℤ}
use go_leaderboard.Base.Effect.{M, pure, fail, wrap_err, ◌>>=◌, ◌>>◌}
use go_leaderboard.Base.Bytes.{Text, codes, eq}
use go_leaderboard.Go.Float.{Float64}
use go_leaderboard.Go.Time.{Time}
use go_leaderboard.Redis.Errors.{
  RedisError, key_not_found, ttl_not_found, general, new_member_not_found,
}
use go_leaderboard.Redis.Defs.{GoRedis, Client, Z, RedisMember, ttl_key_not_found, key_without_ttl}

abbrev pub to_z : RedisMember → Z
to_z m = record { member = m.member; score = m.score }

abbrev of_z : Z → RedisMember
of_z z = record { member = z.member; score = z.score }

-- The error of a lookup: go-redis answers "redis: nil" where there is nothing.
abbrev lookup_error : Text → Text → Text → RedisError
lookup_error key member e =
    if eq e (codes "redis: nil") then new_member_not_found key member else general e

module _ {W : Type 0} (c : GoRedis W) where
  unfoldable pub del : Text → M W RedisError (Unit {0})
  del key = do wrap_err general (c.del key); pure tt

  unfoldable pub exists : Text → M W RedisError (Unit {0})
  exists key = do
    value ← wrap_err general (c.exists key)
    if value == 1 then pure tt else fail (key_not_found key)

  unfoldable pub expire_at : Text → Time → M W RedisError (Unit {0})
  expire_at key time = do
    result ← wrap_err general (c.expire_at key time)
    if result then pure tt else fail (key_not_found key)

  unfoldable pub ping : M W RedisError Text
  ping = wrap_err general c.ping

  unfoldable pub sadd : Text → Text → M W RedisError (Unit {0})
  sadd key member = do wrap_err general (c.sadd key member); pure tt

  unfoldable pub smembers : Text → M W RedisError (List Text)
  smembers key = wrap_err general (c.smembers key)

  unfoldable pub srem : Text → List Text → M W RedisError (Unit {0})
  srem key members = do wrap_err general (c.srem key members); pure tt

  unfoldable pub ttl : Text → M W RedisError ℤ
  ttl key = do
    result ← wrap_err general (c.ttl key)
    if eqb_ℤ result ttl_key_not_found
        then fail (key_not_found key)
        else if eqb_ℤ result key_without_ttl
        then fail (ttl_not_found key)
        else pure result

  unfoldable pub zadd : Text → List RedisMember → M W RedisError (Unit {0})
  zadd key members = do wrap_err general (c.zadd key (map to_z members)); pure tt

  unfoldable pub zcard : Text → M W RedisError ℕ
  zcard key = do
    result ← wrap_err general (c.zcard key)
    if result == 0 then fail (key_not_found key) else pure result

  unfoldable pub zincrby : Text → Text → Float64 → M W RedisError (Unit {0})
  zincrby key member increment = do wrap_err general (c.zincrby key increment member); pure tt

  unfoldable pub zrange : Text → ℤ → ℤ → M W RedisError (List RedisMember)
  zrange key start stop = do
    result ← wrap_err general (c.zrange_with_scores key start stop)
    pure (map of_z result)

  unfoldable pub zrange_by_score : Text → Text → Text → ℤ → ℤ → M W RedisError (List Text)
  zrange_by_score key min max offset count =
      wrap_err general (c.zrange_by_score key min max offset count)

  unfoldable pub zrank : Text → Text → M W RedisError ℤ
  zrank key member = wrap_err (lookup_error key member) (c.zrank key member)

  unfoldable pub zrem : Text → List Text → M W RedisError (Unit {0})
  zrem key members = do wrap_err general (c.zrem key members); pure tt

  unfoldable pub zrevrange : Text → ℤ → ℤ → M W RedisError (List RedisMember)
  zrevrange key start stop = do
    result ← wrap_err general (c.zrevrange_with_scores key start stop)
    pure (map of_z result)

  unfoldable pub zrevrange_by_score : Text → Text → Text → ℤ → ℤ → M W RedisError (List Text)
  zrevrange_by_score key min max offset count =
      wrap_err general (c.zrevrange_by_score key min max offset count)

  unfoldable pub zrevrank : Text → Text → M W RedisError ℤ
  zrevrank key member = wrap_err (lookup_error key member) (c.zrevrank key member)

  unfoldable pub zscore : Text → Text → M W RedisError Float64
  zscore key member = wrap_err (lookup_error key member) (c.zscore key member)

  -- The value as a Client.
  abbrev pub client : Client W
  client = record {
    del = del;
    exists = exists;
    expire_at = expire_at;
    ping = ping;
    sadd = sadd;
    smembers = smembers;
    srem = srem;
    ttl = ttl;
    zadd = zadd;
    zcard = zcard;
    zincrby = zincrby;
    zrange = zrange;
    zrange_by_score = zrange_by_score;
    zrank = zrank;
    zrem = zrem;
    zrevrange = zrevrange;
    zrevrange_by_score = zrevrange_by_score;
    zrevrank = zrevrank;
    zscore = zscore;
  }
