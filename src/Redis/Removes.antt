-- ===== src/Redis/Removes.antt =====
-- What is assumed of go-redis and the server where members go and where expired ones are looked
-- for; `sets` is the plain set at a key.
use mathlib.Core.List.{reverse}
use go_leaderboard.Base.{
  true, ℕ, ◌<◌, ◌≡◌, ◌==◌, Bool, false, ◌||◌, if◌then◌else◌, List, [], ◌∷◌, length, take,
}
use go_leaderboard.Base.Int.{ℤ, pos}
use go_leaderboard.Base.Effect.{ok}
use go_leaderboard.Base.Bytes.{Text, codes, eq}
use go_leaderboard.Go.Word.{IsInt64}
use go_leaderboard.Go.Float.{Float64, of_int}
use go_leaderboard.Go.Strconv.{format_int}
use go_leaderboard.Redis.Defs.{GoRedis, Z}
use go_leaderboard.Redis.Sorted.{without, below}

-- ZREM
unfoldable pub without_all : List Text → List Z → List Z
without_all [] zs = zs
without_all (m ∷ ms) zs = without_all ms (without m zs)

-- ZRANGEBYSCORE from -inf
unfoldable pub due : Float64 → List Z → List Text
due max [] = []
due max (z ∷ zs) = let rest = due max zs in if below max z.score then rest else z.member ∷ rest

unfoldable pub has : Text → List Text → Bool
has m [] = false
has m (n ∷ ns) = eq n m || has m ns

-- SREM
unfoldable pub absent_from : List Text → List Text → List Text
unfolding has
absent_from ms [] = []
absent_from ms (n ∷ ns) = let rest = absent_from ms ns in if has n ms then rest else n ∷ rest

pub record Removes {W : Type 0} (g : GoRedis W) (ranking : W → Text → List Z)
    (sets : W → Text → List Text) : Type 0 where
  pub smembers_lem : (k : Text) (w : W) → g.smembers k w ≡ (ok (sets w k), w)
  pub sadd_lem :
      (k m : Text) (w : W)
      → (n : ℕ) × (w' : W) × (g.sadd k m w ≡ (ok n, w'))
        × ((j : Text) → ranking w' j ≡ ranking w j)
        × (has m (sets w' k) ≡ true)
  pub srem_lem :
      (k : Text) (ms : List Text) (w : W)
      → 0 < length ms
      → (n : ℕ) × (w' : W) × (g.srem k ms w ≡ (ok n, w'))
        × ((j : Text) → ranking w' j ≡ ranking w j)
        × ((j : Text) → sets w' j ≡ (if eq k j then absent_from ms (sets w k) else sets w j))
  pub exists_lem :
      (k : Text) (w : W) → g.exists k w ≡ (ok (if length (ranking w k) == 0 then 0 else 1), w)
  pub zrem_lem :
      (k : Text) (ms : List Text) (w : W)
      → 0 < length ms
      → (n : ℕ) × (w' : W) × (g.zrem k ms w ≡ (ok n, w'))
        × ((j : Text)
            → ranking w' j ≡ (if eq k j then without_all ms (ranking w k) else ranking w j))
  pub del_lem :
      (k : Text) (w : W)
      → (n : ℕ) × (w' : W) × (g.del k w ≡ (ok n, w'))
        × ((j : Text) → ranking w' j ≡ (if eq k j then [] else ranking w j))
  -- go-redis sends no LIMIT for an offset and a count of 0, hence 0 < n.
  pub due_lem :
      (k : Text) (max : ℤ) (n : ℕ) (w : W)
      → 0 < n
      → IsInt64 max
      → g.zrange_by_score k (codes "-inf") (format_int max) (pos 0) (pos n) w
        ≡ (ok (take n (due (of_int max) (ranking w k))), w)
  pub due_last_lem :
      (k : Text) (max : ℤ) (n : ℕ) (w : W)
      → 0 < n
      → IsInt64 max
      → g.zrevrange_by_score k (codes "-inf") (format_int max) (pos 0) (pos n) w
        ≡ (ok (take n (reverse (due (of_int max) (ranking w k)))), w)
