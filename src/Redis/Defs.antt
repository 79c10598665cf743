-- ===== src/Redis/Defs.antt =====
-- leaderboard/database/redis/client.go: the interface Client and the struct Member. `GoRedis` is
-- the third-party client (github.com/go-redis/redis/v8, both its types have these methods): a
-- parameter. `W` is all that it talks to; an error of it is known by its message.
use go_leaderboard.Base.{ℕ, Bool, List}
use go_leaderboard.Base.Int.{ℤ, negsuc}
use go_leaderboard.Base.Effect.{M}
use go_leaderboard.Base.Bytes.{Text}
use go_leaderboard.Go.Float.{Float64}
use go_leaderboard.Go.Time.{Time}
use go_leaderboard.Redis.Errors.{RedisError}

pub record Z : Type 0 where
  pub member : Text
  pub score : Float64

pub record GoRedis (W : Type 0) : Type 0 where
  pub del : Text → M W Text ℕ
  pub exists : Text → M W Text ℕ
  pub expire_at : Text → Time → M W Text Bool
  pub ping : M W Text Text
  pub sadd : Text → Text → M W Text ℕ
  pub smembers : Text → M W Text (List Text)
  pub srem : Text → List Text → M W Text ℕ
  pub ttl : Text → M W Text ℤ
  pub zadd : Text → List Z → M W Text ℕ
  pub zcard : Text → M W Text ℕ
  pub zincrby : Text → Float64 → Text → M W Text Float64
  pub zrange_with_scores : Text → ℤ → ℤ → M W Text (List Z)
  pub zrange_by_score : Text → Text → Text → ℤ → ℤ → M W Text (List Text)
  pub zrank : Text → Text → M W Text ℤ
  pub zrem : Text → List Text → M W Text ℕ
  pub zrevrange_with_scores : Text → ℤ → ℤ → M W Text (List Z)
  pub zrevrange_by_score : Text → Text → Text → ℤ → ℤ → M W Text (List Text)
  pub zrevrank : Text → Text → M W Text ℤ
  pub zscore : Text → Text → M W Text Float64

pub record RedisMember : Type 0 where
  pub member : Text
  pub score : Float64

pub record Client (W : Type 0) : Type 0 where
  pub del : Text → M W RedisError (Unit {0})
  pub exists : Text → M W RedisError (Unit {0})
  pub expire_at : Text → Time → M W RedisError (Unit {0})
  pub ping : M W RedisError Text
  pub sadd : Text → Text → M W RedisError (Unit {0})
  pub smembers : Text → M W RedisError (List Text)
  pub srem : Text → List Text → M W RedisError (Unit {0})
  pub ttl : Text → M W RedisError ℤ
  pub zadd : Text → List RedisMember → M W RedisError (Unit {0})
  pub zcard : Text → M W RedisError ℕ
  pub zincrby : Text → Text → Float64 → M W RedisError (Unit {0})
  pub zrange : Text → ℤ → ℤ → M W RedisError (List RedisMember)
  pub zrange_by_score : Text → Text → Text → ℤ → ℤ → M W RedisError (List Text)
  pub zrank : Text → Text → M W RedisError ℤ
  pub zrem : Text → List Text → M W RedisError (Unit {0})
  pub zrevrange : Text → ℤ → ℤ → M W RedisError (List RedisMember)
  pub zrevrange_by_score : Text → Text → Text → ℤ → ℤ → M W RedisError (List Text)
  pub zrevrank : Text → Text → M W RedisError ℤ
  pub zscore : Text → Text → M W RedisError Float64

-- What TTL answers for a missing key, and for a key that never expires.
abbrev pub ttl_key_not_found : ℤ
ttl_key_not_found = negsuc 1

abbrev pub key_without_ttl : ℤ
key_without_ttl = negsuc 0
