-- ===== src/Redis/Answers.antt =====
-- What is assumed of go-redis and the server behind it where a theorem is about more than one
-- call: the server answers every command, as its documentation says, and no other client comes
-- between the calls of one operation. A command without members, which redis refuses, is not
-- covered, nor is a key that holds a value of the other kind: a leaderboard is not named
-- "expiration-sets" or by a key of times. `ranking` is the sorted set at a key, lowest score first.
use mathlib.Core.List.{reverse}
use go_leaderboard.Base.{ℕ, ◌<◌, ◌≡◌, if◌then◌else◌, Option, none, some, List, length}
use go_leaderboard.Base.Int.{ℤ, pos}
use go_leaderboard.Base.Effect.{Outcome, ok, err}
use go_leaderboard.Base.Bytes.{Text, codes, eq}
use go_leaderboard.Redis.Defs.{GoRedis, Z}
use go_leaderboard.Redis.Sorted.{slice, position, score_of, add_all}

-- A value, or goredis.Nil.
abbrev pub or_nil : {A : Type 0} → Option A → Outcome Text A
or_nil none = err (codes "redis: nil")
or_nil (some a) = ok a

abbrev pub rank_reply : Option ℕ → Outcome Text ℤ
rank_reply none = err (codes "redis: nil")
rank_reply (some i) = ok (pos i)

pub record Answers {W : Type 0} (g : GoRedis W) (ranking : W → Text → List Z) : Type 0 where
  pub zcard_lem : (k : Text) (w : W) → g.zcard k w ≡ (ok (length (ranking w k)), w)
  pub zrange_lem :
      (k : Text) (i j : ℤ) (w : W)
      → g.zrange_with_scores k i j w ≡ (ok (slice i j (ranking w k)), w)
  pub zrevrange_lem :
      (k : Text) (i j : ℤ) (w : W)
      → g.zrevrange_with_scores k i j w ≡ (ok (slice i j (reverse (ranking w k))), w)
  pub zrank_lem : (k m : Text) (w : W) → g.zrank k m w ≡ (rank_reply (position m (ranking w k)), w)
  pub zrevrank_lem :
      (k m : Text) (w : W) → g.zrevrank k m w ≡ (rank_reply (position m (reverse (ranking w k))), w)
  pub zscore_lem : (k m : Text) (w : W) → g.zscore k m w ≡ (or_nil (score_of m (ranking w k)), w)
  pub zadd_lem :
      (k : Text) (zs : List Z) (w : W)
      → 0 < length zs
      → (n : ℕ) × (w' : W) × (g.zadd k zs w ≡ (ok n, w'))
        × ((j : Text) → ranking w' j ≡ (if eq k j then add_all zs (ranking w k) else ranking w j))
