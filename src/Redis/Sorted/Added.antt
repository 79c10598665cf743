-- ===== src/Redis/Sorted/Added.antt =====
-- The scores in a sorted set after ZADD.
use go_leaderboard.Base.{
  ◌≡◌, sym, ap, ◌∙◌, arith, false, if◌then◌else◌, some, List, [], ◌∷◌, Bool-cases, inl, inr,
}
use go_leaderboard.Base.Bytes.{Text, eq, eq_iff}
use go_leaderboard.Redis.Defs.{Z}
use go_leaderboard.Redis.Sorted.{score_of, without, place, add_one}
use go_leaderboard.Redis.Sorted.Listed.{score_of-add_one}
use go_leaderboard.Redis.Sorted.Without.{score_of-without}

score_of-place_other :
    (x : Text) (z : Z) (zs : List Z)
    → eq z.member x ≡ false
    → score_of x (place z zs) ≡ score_of x zs
unfolding score_of place
score_of-place_other x z [] h = rw (h, score_of)
score_of-place_other x z (y ∷ ys) h = ground (arith, score_of-place_other x z ys)

-- ZADD changes the score of its member only.
pub score_of-add_one_if :
    (x : Text) (z : Z) (zs : List Z)
    → score_of x (add_one z zs) ≡ (if eq z.member x then some z.score else score_of x zs)
unfolding add_one
score_of-add_one_if x z zs = elim (Bool-cases (eq z.member x)) [
  | inl e ↦ rw e (
      ap (λ (k : Text). score_of k (add_one z zs)) (sym ((eq_iff z.member x).0 e))
      ∙ score_of-add_one z zs)
  | inr e ↦
      rw e (score_of-place_other x z (without z.member zs) e ∙ score_of-without x z.member zs e)
]
