-- ===== src/Redis/Sorted/Without.antt =====
-- Who is left in a sorted set after ZREM.
use go_leaderboard.Base.{
  ◌≡◌, refl, ap, ◌∙◌, arith, true, false, none, List, [], ◌∷◌, Bool-cases, inl, inr,
}
use go_leaderboard.Base.Bytes.{Text, eq, eq_iff}
use go_leaderboard.Redis.Defs.{Z}
use go_leaderboard.Redis.Sorted.{position, score_of, without}
use go_leaderboard.Redis.Removes.{without_all, has}

position-without : (m : Text) (zs : List Z) → position m (without m zs) ≡ none
unfolding position without
position-without m [] = refl
position-without m (z ∷ zs) = ground (arith, position-without m zs)

position-without_other :
    (m n : Text) (zs : List Z) → position m zs ≡ none → position m (without n zs) ≡ none
unfolding position without
position-without_other m n [] h = refl
position-without_other m n (z ∷ zs) h = ground (arith, position-without_other m n zs)

position-without_all :
    (m : Text) (ms : List Text) (zs : List Z)
    → position m zs ≡ none
    → position m (without_all ms zs) ≡ none
unfolding without_all
position-without_all m [] zs h = h
position-without_all m (n ∷ ns) zs h =
    position-without_all m ns (without n zs) (position-without_other m n zs h)

-- A member that was removed has no position.
pub without_all-gone :
    (m : Text) (ms : List Text) (zs : List Z)
    → has m ms ≡ true
    → position m (without_all ms zs) ≡ none
unfolding without_all has
without_all-gone m [] zs h = cc
without_all-gone m (n ∷ ns) zs h = elim (Bool-cases (eq n m)) [
  | inl e ↦
      position-without_all m ns (without n zs)
        (ap (λ (k : Text). position m (without k zs)) ((eq_iff n m).0 e) ∙ position-without m zs)
  | inr e ↦ without_all-gone m ns (without n zs) (ground arith)
]

pub score_of-without :
    (m n : Text) (zs : List Z) → eq n m ≡ false → score_of m (without n zs) ≡ score_of m zs
unfolding score_of without
score_of-without m n [] h = refl
score_of-without m n (z ∷ zs) h = elim (Bool-cases (eq z.member n)) [
  | inl e ↦
      ground
        (arith, ap (λ (k : Text). eq k m) ((eq_iff z.member n).0 e) ∙ h, score_of-without m n zs h)
  | inr e ↦ ground (arith, score_of-without m n zs h)
]

-- Any other member has the score that it had.
pub without_all-kept :
    (m : Text) (ms : List Text) (zs : List Z)
    → has m ms ≡ false
    → score_of m (without_all ms zs) ≡ score_of m zs
unfolding without_all has
without_all-kept m [] zs h = refl
without_all-kept m (n ∷ ns) zs h =
    without_all-kept m ns (without n zs) (ground arith) ∙ score_of-without m n zs (ground arith)
