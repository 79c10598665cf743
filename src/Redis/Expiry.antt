-- ===== src/Redis/Expiry.antt =====
-- What is assumed of go-redis and the server of TTL and EXPIREAT; `expires` is the time at which a
-- key goes. EXPIREAT with a time that is past would delete the key: it is covered for times after
-- `now`, in seconds, that of the server's clock.
use go_leaderboard.Base.{ℕ, ◌<◌, ◌≡◌, ◌==◌, true, if◌then◌else◌, Option, none, some, List, length}
use go_leaderboard.Base.Int.{ℤ, pos, ◌<ℤ◌}
use go_leaderboard.Base.Effect.{ok}
use go_leaderboard.Base.Bytes.{Text, eq}
use go_leaderboard.Go.Time.{Time, unix}
use go_leaderboard.Redis.Defs.{GoRedis, Z, ttl_key_not_found, key_without_ttl}

-- The reply of TTL, with the time left for a key that has an expiration.
abbrev pub ttl_reply : ℕ → Option Time → ℕ → ℤ
ttl_reply size none left = if size == 0 then ttl_key_not_found else key_without_ttl
ttl_reply size (some t) left = if size == 0 then ttl_key_not_found else pos left

pub record Expiry {W : Type 0} (g : GoRedis W) (ranking : W → Text → List Z)
    (expires : W → Text → Option Time) (now : W → ℤ) : Type 0 where
  pub ttl_lem :
      (k : Text) (w : W)
      → (left : ℕ) × (g.ttl k w ≡ (ok (ttl_reply (length (ranking w k)) (expires w k) left), w))
  pub expire_at_lem :
      (k : Text) (t : Time) (w : W)
      → 0 < length (ranking w k)
      → now w <ℤ unix t
      → (w' : W) × (g.expire_at k t w ≡ (ok true, w'))
        × ((j : Text) → ranking w' j ≡ ranking w j)
        × ((j : Text) → expires w' j ≡ (if eq k j then some t else expires w j))
