-- ===== src/Redis/Sorted/Listed.antt =====
-- Members of a sorted set: score, rank from either end, and the effect of ZADD agree on who is
-- listed.
use mathlib.Core.List.{reverse, reverse-cons}
use go_leaderboard.Base.{
  ℕ, suc, ◌≡◌, refl, ◌∙◌, arith, Bool, true, false, ◌||◌, none, some, List, [], ◌∷◌, ◌++◌,
  Bool-cases, inl, inr,
}
use go_leaderboard.Base.Bytes.{Text, eq, eq_refl}
use go_leaderboard.Go.Float.{Float64}
use go_leaderboard.Redis.Defs.{Z}
use go_leaderboard.Redis.Sorted.{position, score_of, without, place, add_one}

listed : Text → List Z → Bool
listed m [] = false
listed m (z ∷ zs) = eq z.member m || listed m zs

listed-append : (m : Text) (xs ys : List Z) → listed m (xs ++ ys) ≡ (listed m xs || listed m ys)
unfolding listed
listed-append m [] ys = refl
listed-append m (x ∷ xs) ys = ground (arith, listed-append m xs ys)

listed-reverse : (m : Text) (zs : List Z) → listed m (reverse zs) ≡ listed m zs
unfolding listed
listed-reverse m [] = refl
listed-reverse m (z ∷ zs) =
    rw (reverse-cons z zs)
      (ground (arith, listed-append m (reverse zs) (z ∷ []), listed-reverse m zs))

listed-position : (m : Text) (zs : List Z) → listed m zs ≡ true → (i : ℕ) × (position m zs ≡ some i)
unfolding listed position
listed-position m [] h = cc
listed-position m (z ∷ zs) h = elim (Bool-cases (eq z.member m)) [
  | inl e ↦ (0, rw (e, position))
  | inr e ↦ later e (listed-position m zs (ground arith))
]
  where
    later :
        eq z.member m ≡ false
        → ((i : ℕ) × (position m zs ≡ some i))
        → (i : ℕ) × (position m (z ∷ zs) ≡ some i)
    later e (i, p) = (suc i, rw (e, position) (rw p))

unlisted-position : (m : Text) (zs : List Z) → listed m zs ≡ false → position m zs ≡ none
unfolding listed position
unlisted-position m [] h = refl
unlisted-position m (z ∷ zs) h = ground (arith, unlisted-position m zs)

listed-score_of :
    (m : Text) (zs : List Z) → listed m zs ≡ true → (x : Float64) × (score_of m zs ≡ some x)
unfolding listed score_of
listed-score_of m [] h = cc
listed-score_of m (z ∷ zs) h = elim (Bool-cases (eq z.member m)) [
  | inl e ↦ (z.score, rw (e, score_of))
  | inr e ↦ (let (x, p) = listed-score_of m zs (ground arith) in (x, rw (e, score_of) p))
]

unlisted-score_of : (m : Text) (zs : List Z) → listed m zs ≡ false → score_of m zs ≡ none
unfolding listed score_of
unlisted-score_of m [] h = refl
unlisted-score_of m (z ∷ zs) h = ground (arith, unlisted-score_of m zs)

-- Either a member has neither score nor rank, or it has a score and a rank from both ends.
pub data Standing (m : Text) (zs : List Z) : Type 0 where
  absent :
      score_of m zs ≡ none → position m zs ≡ none → position m (reverse zs) ≡ none → Standing m zs
  present :
      (x : Float64) (i j : ℕ)
      → score_of m zs ≡ some x
      → position m zs ≡ some i
      → position m (reverse zs) ≡ some j
      → Standing m zs

pub standing : (m : Text) (zs : List Z) → Standing m zs
standing m zs = elim (Bool-cases (listed m zs)) [
  | inl h ↦
      (let (x, s) = listed-score_of m zs h in
        let (i, p) = listed-position m zs h in
        let (j, q) = listed-position m (reverse zs) (listed-reverse m zs ∙ h) in
        present x i j s p q)
  | inr h ↦
      absent (unlisted-score_of m zs h) (unlisted-position m zs h)
        (unlisted-position m (reverse zs) (listed-reverse m zs ∙ h))
]

listed-without : (m : Text) (zs : List Z) → listed m (without m zs) ≡ false
unfolding listed without
listed-without m [] = refl
listed-without m (z ∷ zs) = ground (arith, listed-without m zs)

score_of-place :
    (z : Z) (zs : List Z)
    → listed z.member zs ≡ false
    → score_of z.member (place z zs) ≡ some z.score
unfolding listed score_of place
score_of-place z [] h = rw (eq_refl z.member, score_of)
score_of-place z (y ∷ ys) h = ground (arith, eq_refl z.member, score_of-place z ys)

-- After ZADD the member has the score that was added.
pub score_of-add_one : (z : Z) (zs : List Z) → score_of z.member (add_one z zs) ≡ some z.score
unfolding add_one
score_of-add_one z zs = score_of-place z (without z.member zs) (listed-without z.member zs)

-- So it has a rank too.
pub position-add_one :
    (z : Z) (zs : List Z) → (j : ℕ) × (position z.member (reverse (add_one z zs)) ≡ some j)
position-add_one z zs = from (standing z.member (add_one z zs))
  where
    from :
        Standing z.member (add_one z zs)
        → (j : ℕ) × (position z.member (reverse (add_one z zs)) ≡ some j)
    from (absent s p q) = absurd (cc (score_of-add_one z zs))
    from (present x i j s p q) = (j, q)
