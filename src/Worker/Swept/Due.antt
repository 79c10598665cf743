-- ===== src/Worker/Swept/Due.antt =====
-- Who is left after a tick of the worker.
use go_leaderboard.Base.{
  ℕ, ◌≤◌, ◌≡◌, refl, sym, ◌∙◌, arith, true, false, ◌||◌, List, [], ◌∷◌, length, All, Bool-cases,
  inl, inr,
}
use go_leaderboard.Base.Bytes.{Text, eq, eq_iff, eq_refl}
use go_leaderboard.Go.Float.{Float64}
use go_leaderboard.Redis.Removes.{due, has, absent_from}
use go_leaderboard.Redis.Sorted.{score_of}
use go_leaderboard.Redis.Sorted.Without.{without_all-kept}
use go_leaderboard.Redis.Sorted.Due.{
  absent_from-nil, length-absent_from, has-absent_from, due-without_all, due-emptied, take-whole,
  has-take,
}
use go_leaderboard.Database.Order.{ttl_key}
use go_leaderboard.Worker.Swept.{Rankings, leaving, cleared, swept}

module _ (limit : ℕ) (now : Float64) where
  -- Clearing a leaderboard takes some members out of those that are due, in every sorted set.
  due-cleared :
      (lb : Text) (r : Rankings) (j : Text)
      → (ms : List Text) × (due now (cleared limit now lb r j) ≡ absent_from ms (due now (r j)))
  unfolding cleared
  due-cleared lb r j = elim (Bool-cases (eq lb j || eq (ttl_key lb) j)) [
    | inl e ↦ (leaving limit now lb r, rw e (due-without_all now (leaving limit now lb r) (r j)))
    | inr e ↦ ([], rw e (sym (absent_from-nil (due now (r j)))))
  ]

  swept-without_due :
      (lbs : List Text) (r : Rankings) (j : Text)
      → due now (r j) ≡ []
      → due now (swept limit now lbs r j) ≡ []
  unfolding swept absent_from
  swept-without_due [] r j h = h
  swept-without_due (lb ∷ lbs) r j h =
      let (ms, e) = due-cleared lb r j in
      swept-without_due lbs (cleared limit now lb r) j (e ∙ rw h refl)

  cleared-own :
      (lb : Text) (r : Rankings)
      → length (due now (r (ttl_key lb))) ≤ limit
      → due now (cleared limit now lb r (ttl_key lb)) ≡ []
  unfolding cleared
  cleared-own lb r few = rw (eq_refl (ttl_key lb)) (elim (Bool-cases (eq lb (ttl_key lb))) [
    | inl e ↦
        rw e
          (rw (take-whole limit (due now (r (ttl_key lb))) few) (due-emptied now (r (ttl_key lb))))
    | inr e ↦
        rw e
          (rw (take-whole limit (due now (r (ttl_key lb))) few) (due-emptied now (r (ttl_key lb))))
  ])

  pub swept-none_due :
      (lbs : List Text) (r : Rankings) (lb : Text)
      → has lb lbs ≡ true
      → length (due now (r (ttl_key lb))) ≤ limit
      → due now (swept limit now lbs r (ttl_key lb)) ≡ []
  unfolding swept has
  swept-none_due [] r lb h few = cc
  swept-none_due (l ∷ lbs) r lb h few = elim (Bool-cases (eq l lb)) [
    | inl e ↦
        swept-without_due lbs (cleared limit now l r) (ttl_key lb)
          (rw (← (eq_iff l lb).0 e) (cleared-own l r (rw ((eq_iff l lb).0 e) few)))
    | inr e ↦
        let (ms, d) = due-cleared l r (ttl_key lb) in
        swept-none_due lbs (cleared limit now l r) lb (ground arith)
          (rw d (omega (arith, length-absent_from ms (due now (r (ttl_key lb))))))
  ]

  -- The member is not due in the times of any of the leaderboards.
  abbrev pub IsLate : Text → List Text → Rankings → Type 0
  IsLate m lbs r = All (λ lb. has m (due now (r (ttl_key lb))) ≡ false) lbs

  cleared-IsLate :
      (m : Text) (l : Text) (lbs : List Text) (r : Rankings)
      → IsLate m lbs r
      → IsLate m lbs (cleared limit now l r)
  cleared-IsLate m l [] r h = tt
  cleared-IsLate m l (lb ∷ lbs) r h =
      let (ms, d) = due-cleared l r (ttl_key lb) in
      (rw d (has-absent_from m ms (due now (r (ttl_key lb))) h.0), cleared-IsLate m l lbs r h.1)

  score_of-cleared :
      (m lb : Text) (r : Rankings) (j : Text)
      → has m (due now (r (ttl_key lb))) ≡ false
      → score_of m (cleared limit now lb r j) ≡ score_of m (r j)
  unfolding cleared
  score_of-cleared m lb r j h = elim (Bool-cases (eq lb j || eq (ttl_key lb) j)) [
    | inl e ↦ rw e (
        without_all-kept m (leaving limit now lb r) (r j)
          (has-take m limit (due now (r (ttl_key lb))) h))
    | inr e ↦ rw e refl
  ]

  pub swept-score_kept :
      (m : Text) (lbs : List Text) (r : Rankings) (j : Text)
      → IsLate m lbs r
      → score_of m (swept limit now lbs r j) ≡ score_of m (r j)
  unfolding swept
  swept-score_kept m [] r j h = refl
  swept-score_kept m (lb ∷ lbs) r j h =
      swept-score_kept m lbs (cleared limit now lb r) j (cleared-IsLate m lb lbs r h.1)
      ∙ score_of-cleared m lb r j h.0

  -- Every sorted set is as after clearing the leaderboards one after the other; none is due any
  -- more where no more were due than a run takes; and a member that was due in no leaderboard's
  -- times keeps its scores everywhere.
  abbrev pub Swept : List Text → Rankings → Rankings → Type 0
  Swept lbs r r' =
      (r' ≡ swept limit now lbs r)
      × ((lb : Text)
          → has lb lbs ≡ true
          → length (due now (r (ttl_key lb))) ≤ limit
          → due now (r' (ttl_key lb)) ≡ [])
      × ((m j : Text) → IsLate m lbs r → score_of m (r' j) ≡ score_of m (r j))

  pub swept-Swept :
      (lbs : List Text) (r r' : Rankings) → r' ≡ swept limit now lbs r → Swept lbs r r'
  swept-Swept lbs r r' e = (
    e,
    (λ lb h few. rw e (swept-none_due lbs r lb h few)),
    (λ m j h. rw e (swept-score_kept m lbs r j h)),
  )
