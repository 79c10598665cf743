-- ===== src/Worker/Swept/Tick.antt =====
-- One tick of the worker over the redis database of a server.
use mathlib.Core.List.{append-nil}
use go_leaderboard.Base.{
  ℕ, ◌<◌, ◌==◌, ◌≡◌, refl, sym, ap, ◌∙◌, fun_ext, arith, List, [], zero, suc, take, ◌∷◌, ◌++◌, map,
  length, Bool-cases, inl, inr,
}
use go_leaderboard.Base.Effect.{ok}
use go_leaderboard.Base.Bytes.{Text}
use go_leaderboard.Go.Word.{IsInt64}
use go_leaderboard.Go.Float.{Float64, of_int}
use go_leaderboard.Go.Time.{Time, unix}
use go_leaderboard.Redis.Defs.{GoRedis, Z}
use go_leaderboard.Redis.Removes.{Removes, without_all, due}
use go_leaderboard.Database.Order.{ttl_key, expiration_set}
use go_leaderboard.Database.Served.Names.{get_expiration_leaderboards-ttl_key}
use go_leaderboard.Worker.{
  Worker, ExpirationResult, results, expire_members_from_leaderboard, expire_each, expire_members,
}
use go_leaderboard.Worker.Served.{
  worker, expire_members_from_leaderboard-Cleared, expire_members_from_leaderboard-Unlisted,
}
use go_leaderboard.Worker.Swept.{Rankings, cleared, swept, report, reports}
use go_leaderboard.Worker.Swept.Due.{Swept, swept-Swept}

append_later :
    (acc : List ExpirationResult) (r : ExpirationResult) (rs : List ExpirationResult)
    → (acc ++ (r ∷ [])) ++ rs ≡ acc ++ (r ∷ rs)
append_later [] r rs = refl
append_later (a ∷ acc) r rs = ap (λ (l : List ExpirationResult). a ∷ l) (append_later acc r rs)

no_times_due : (now : Float64) (zs : List Z) → length zs ≡ 0 → due now zs ≡ []
unfolding due
no_times_due now [] h = refl
no_times_due now (z ∷ zs) h = absurd (omega arith)

take-nothing : (n : ℕ) → take {A = Text} n [] ≡ []
take-nothing zero = refl
take-nothing (suc n) = refl

cleared-nothing :
    (n : ℕ) (now : Float64) (lb : Text) (r : Rankings) (j : Text)
    → due now (r (ttl_key lb)) ≡ []
    → cleared n now lb r j ≡ r j
unfolding cleared without_all
cleared-nothing n now lb r j h = rw (ap (take n) h ∙ take-nothing n) (ground arith)

each-step :
    {W : Type 0} (v : Worker W) (acc : List ExpirationResult) (l : Text) (ls : List Text) (w w' : W)
    (r : ExpirationResult)
    → expire_members_from_leaderboard v l w ≡ (ok r, w')
    → expire_each v acc (l ∷ ls) w ≡ expire_each v (acc ++ (r ∷ [])) ls w'
unfolding expire_each
each-step v acc l ls w w' r h = rw (ap (λ p. p.0) h, expire_each) (rw (ap (λ p. p.1) h) refl)

module _ {W : Type 0} (g : GoRedis W) (ranking : W → Text → List Z) (sets : W → Text → List Text)
    (a : Removes g ranking sets) (clock : W → Time × W) (still : (w : W) → (clock w).1 ≡ w)
    (t : Time) (reads : (w : W) → (clock w).0 ≡ t) (b : IsInt64 (unix t)) (n : ℕ)
    (some_per_run : 0 < n) where
  one_swept :
      (lb : Text) (w : W)
      → (w' : W) × (expire_members_from_leaderboard (worker g clock n) lb w
          ≡ (ok (report n (of_int (unix t)) lb (ranking w)), w'))
        × (ranking w' ≡ cleared n (of_int (unix t)) lb (ranking w))
  unfolding report cleared without_all
  one_swept lb w = elim (Bool-cases (length (ranking w (ttl_key lb)) == 0)) [
    | inl e ↦
        let none : length (ranking w (ttl_key lb)) ≡ 0 = ground (arith, e) in
        let (w', d, (same, gone)) =
          expire_members_from_leaderboard-Unlisted g ranking sets a clock still n lb w none in
        (
          w',
          rw e d,
          fun_ext (λ j.
              same j
              ∙ sym (
                  cleared-nothing n (of_int (unix t)) lb (ranking w) j
                    (no_times_due (of_int (unix t)) (ranking w (ttl_key lb)) none))),
        )
    | inr e ↦
        let (w', d, c) =
          expire_members_from_leaderboard-Cleared g ranking sets a clock still n lb w some_per_run
            (rw (reads w) b) (ground arith) in
        (w', rw e (rw (← reads w) d), fun_ext (λ j. rw (← reads w) (c j)))
  ]

  each_swept :
      (acc : List ExpirationResult) (lbs : List Text) (w : W)
      → (w' : W) × (expire_each (worker g clock n) acc lbs w
          ≡ (results (acc ++ reports n (of_int (unix t)) lbs (ranking w)) ∷ [], w'))
        × (ranking w' ≡ swept n (of_int (unix t)) lbs (ranking w))
  unfolding expire_each reports swept
  each_swept acc [] w = (w, rw (append-nil acc) refl, refl)
  each_swept acc (lb ∷ lbs) w =
      let (w1, e, r) = one_swept lb w in
      let (w2, e', r') =
        each_swept (acc ++ (report n (of_int (unix t)) lb (ranking w) ∷ [])) lbs w1 in
      (
        w2,
        each-step (worker g clock n) acc lb lbs w w1 (report n (of_int (unix t)) lb (ranking w)) e
            ∙ e'
            ∙ rw
                (append_later acc (report n (of_int (unix t)) lb (ranking w))
                  (reports n (of_int (unix t)) lbs (ranking w1)))
                (rw r refl),
        r' ∙ rw r refl,
      )

  -- Over a server that answers and a clock that leaves it as it is and always reads the same
  -- 64-bit time, with a limit from 1, if the set of expirations holds the keys that SetMembersTTL
  -- makes for a list of leaderboards, one tick sends the results of all of them, in order, in one
  -- event; the sorted sets are as after clearing the leaderboards one after the other, each of the
  -- first members whose time is not after the clock, up to the limit; the times of a leaderboard
  -- of the list that had no more such members than the limit have none after the tick; and a
  -- member whose time had come in the times of none of them keeps its score in every sorted set.
  pub expire_members-Swept :
      (lbs : List Text) (w : W)
      → sets w expiration_set ≡ map ttl_key lbs
      → (w' : W) × (expire_members (worker g clock n) w
          ≡ (results (reports n (of_int (unix t)) lbs (ranking w)) ∷ [], w'))
        × Swept n (of_int (unix t)) lbs (ranking w) (ranking w')
  unfolding expire_members
  expire_members-Swept lbs w h =
      let listed = get_expiration_leaderboards-ttl_key g ranking sets a w lbs h in
      let (w', e, r) = each_swept [] lbs w in
      (
        w',
        rw (ap (λ p. p.0) listed, expire_members) (rw (ap (λ p. p.1) listed) e),
        swept-Swept n (of_int (unix t)) lbs (ranking w) (ranking w') r,
      )
