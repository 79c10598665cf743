-- ===== src/Worker/Events.antt =====
-- What one tick of the worker sends.
use go_leaderboard.Base.{◌≡◌, refl, ap, sym, subst, List, [], ◌∷◌, ◌++◌, inl, inr}
use go_leaderboard.Base.Effect.{Outcome, ok, err, panic, Outcome-cases}
use go_leaderboard.Base.Bytes.{Text}
use go_leaderboard.Database.Errors.{DbError}
use go_leaderboard.Worker.{
  ExpirationResult, Worker, Event, results, error, expire_members_from_leaderboard, expire_each,
  expire_members,
}

append_later :
    (acc : List ExpirationResult) (r : ExpirationResult) (rs : List ExpirationResult)
    → (acc ++ (r ∷ [])) ++ rs ≡ acc ++ (r ∷ rs)
append_later [] r rs = refl
append_later (a ∷ acc) r rs = ap (λ (l : List ExpirationResult). a ∷ l) (append_later acc r rs)

append_none : (acc : List ExpirationResult) → acc ++ [] ≡ acc
append_none [] = refl
append_none (a ∷ acc) = ap (λ (l : List ExpirationResult). a ∷ l) (append_none acc)

module _ {W : Type 0} (w : Worker W) where
  -- The leaderboards are done one after the other, each with its result, and lead to a state.
  pub Done : List Text → W → List ExpirationResult → W → Type 0
  Done [] s [] t = t ≡ s
  Done [] s (r ∷ rs) t = ⊥
  Done (l ∷ ls) s [] t = ⊥
  Done (l ∷ ls) s (r ∷ rs) t =
      (s' : W) × (expire_members_from_leaderboard w l s ≡ (ok r, s')) × Done ls s' rs t

  -- How a run over leaderboards ends, with the results so far: one event with the results of all;
  -- or, after those before it were done, one of them stops the run, by an error, which is the
  -- event, or by a panic, without one.
  pub data Ends (acc : List ExpirationResult) (ls : List Text) (s : W)
      : List Event → W → Type 0 where
    reported :
        (rs : List ExpirationResult) (t : W)
        → Done ls s rs t
        → Ends acc ls s (results (acc ++ rs) ∷ []) t
    failed :
        (before : List Text) (l : Text) (after : List Text) (rs : List ExpirationResult)
        (e : DbError) (t u : W)
        → before ++ (l ∷ after) ≡ ls
        → Done before s rs t
        → expire_members_from_leaderboard w l t ≡ (err e, u)
        → Ends acc ls s (error e ∷ []) u
    crashed :
        (before : List Text) (l : Text) (after : List Text) (rs : List ExpirationResult) (t u : W)
        → before ++ (l ∷ after) ≡ ls
        → Done before s rs t
        → expire_members_from_leaderboard w l t ≡ (panic, u)
        → Ends acc ls s [] u

  -- What a tick sends and leaves, by what the list of leaderboards with expirations came to.
  pub Tick : Outcome DbError (List Text) × W → List Event × W → Type 0
  Tick (ok ls, s) (events, t) = Ends [] ls s events t
  Tick (err e, s) (events, t) = (events ≡ error e ∷ results [] ∷ []) × (t ≡ s)
  Tick (panic, s) (events, t) = (events ≡ []) × (t ≡ s)

  -- One more leaderboard in front.
  after_one :
      (acc : List ExpirationResult) (l : Text) (ls : List Text) (r : ExpirationResult) (s s' : W)
      (events : List Event) (t : W)
      → expire_members_from_leaderboard w l s ≡ (ok r, s')
      → Ends (acc ++ (r ∷ [])) ls s' events t
      → Ends acc (l ∷ ls) s events t
  unfolding Done
  after_one acc l ls r s s' _ _ h (reported rs t d) =
      subst (λ (xs : List ExpirationResult). Ends acc (l ∷ ls) s (results xs ∷ []) t)
        (sym (append_later acc r rs)) (reported (r ∷ rs) t (s', h, d))
  after_one acc l ls r s s' _ _ h (failed before k after rs e t u p d q) =
      failed (l ∷ before) k after (r ∷ rs) e t u (ap (λ (xs : List Text). l ∷ xs) p) (s', h, d) q
  after_one acc l ls r s s' _ _ h (crashed before k after rs t u p d q) =
      crashed (l ∷ before) k after (r ∷ rs) t u (ap (λ (xs : List Text). l ∷ xs) p) (s', h, d) q

  expire_each-Ends :
      (acc : List ExpirationResult) (ls : List Text) (s : W)
      → Ends acc ls s (expire_each w acc ls s).0 (expire_each w acc ls s).1
  unfolding expire_each Done
  expire_each-Ends acc [] s =
      subst (λ (xs : List ExpirationResult). Ends acc [] s (results xs ∷ []) s) (append_none acc)
        (reported [] s refl)
  expire_each-Ends acc (l ∷ ls) s =
      let next = (expire_members_from_leaderboard w l s).1 in
      elim (Outcome-cases (expire_members_from_leaderboard w l s).0) [
        | inl (r, e) ↦
            rw (e, expire_each)
              (after_one acc l ls r s next _ _
                (ap (λ (o : Outcome DbError ExpirationResult). (o, next)) e)
                (expire_each-Ends (acc ++ (r ∷ [])) ls next))
        | inr (inl (x, e)) ↦
            rw (e, expire_each)
              (failed [] l ls [] x s next refl refl
                (ap (λ (o : Outcome DbError ExpirationResult). (o, next)) e))
        | inr (inr e) ↦
            rw (e, expire_each)
              (crashed [] l ls [] s next refl refl
                (ap (λ (o : Outcome DbError ExpirationResult). (o, next)) e))
      ]

  -- If the list of leaderboards is read, they are expired one after the other, each in the state
  -- that the one before left, and the tick sends one event: the results of all of them, in order,
  -- or the error of the first that fails, where it stops; or that one panics, and nothing is sent.
  -- If reading the list fails, the tick sends the error and then an empty list of results as well.
  pub expire_members-Tick :
      (s : W) → Tick (w.database.get_expiration_leaderboards s) (expire_members w s)
  unfolding expire_members Tick expire_each
  expire_members-Tick s = elim (Outcome-cases (w.database.get_expiration_leaderboards s).0) [
    | inl (ls, e) ↦
        rw (e, expire_members) (expire_each-Ends [] ls (w.database.get_expiration_leaderboards s).1)
    | inr (inl (x, e)) ↦ rw (e, expire_members) (refl, refl)
    | inr (inr e) ↦ rw (e, expire_members) (refl, refl)
  ]
