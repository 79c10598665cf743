-- ===== src/Board/Lookups.antt =====
-- How the commands of redis change the scores that a sorted set holds.
use go_leaderboard.Base.{
  ◌≤◌, ◌≡◌, arith, if◌then◌else◌, none, List, [], ◌∷◌, length, Bool-cases, inl, inr,
}
use go_leaderboard.Base.Bytes.{Text}
use go_leaderboard.Redis.Defs.{Z}
use go_leaderboard.Redis.Sorted.{position, score_of, without}
use go_leaderboard.Redis.Sorted.Listed.{standing, Standing, absent, present}
use go_leaderboard.Redis.Sorted.Without.{without_all-gone, without_all-kept}
use go_leaderboard.Redis.Removes.{without_all, has}
use go_leaderboard.Service.Writes.Placed.{length-without}

-- ZREM takes the scores of its members only.
pub score_of-without_all_if :
    (x : Text) (ms : List Text) (zs : List Z)
    → score_of x (without_all ms zs) ≡ (if has x ms then none else score_of x zs)
score_of-without_all_if x ms zs = elim (Bool-cases (has x ms)) [
  | inl e ↦ rw e (from (standing x (without_all ms zs)) (without_all-gone x ms zs e))
  | inr e ↦ rw e (without_all-kept x ms zs e)
]
  where
    from :
        Standing x (without_all ms zs)
        → position x (without_all ms zs) ≡ none
        → score_of x (without_all ms zs) ≡ none
    from (absent s p q) h = s
    from (present y i j s p q) h = absurd (cc (p, h))

pub length-without_all : (ms : List Text) (zs : List Z) → length (without_all ms zs) ≤ length zs
unfolding without_all
length-without_all [] zs = omega arith
length-without_all (m ∷ ms) zs =
    omega (arith, length-without_all ms (without m zs), length-without m zs)
