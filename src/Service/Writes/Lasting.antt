-- ===== src/Service/Writes/Lasting.antt =====
-- The expiration of a leaderboard by its name, over a server that answers.
use go_leaderboard.Base.{
  ℕ, ◌<◌, ◌≡◌, ◌==◌, refl, subst, ◌∙◌, arith, false, Option, none, some, List, length, Option-cases,
  inl, inr,
}
use go_leaderboard.Base.Int.{ℤ, pos, eqb_ℤ, ◌<ℤ◌}
use go_leaderboard.Base.Effect.{ok}
use go_leaderboard.Base.Bytes.{Text, eq, eq_refl}
use go_leaderboard.Go.Time.{Time, at, unix}
use go_leaderboard.Redis.Defs.{GoRedis, Z, ttl_key_not_found, key_without_ttl}
use go_leaderboard.Redis.Expiry.{Expiry}
use go_leaderboard.Redis.Standalone as Standalone
use go_leaderboard.Database.Scores.{get_leaderboard_expiration, set_leaderboard_expiration}
use go_leaderboard.Expiration.Future.{IsAhead, get_expire_at-IsAhead}
use go_leaderboard.Expiration.Name.{get_expire_at, no_expiration}
use go_leaderboard.Service.Members.{
  ensure_expiration, ensure_by_name, persist_leaderboard_expiration_time,
}
use go_leaderboard.Service.Pages.Served.{service}

-- What stays if there is something, and else the new time.
abbrev pub or_first : Option Time → Time → Time
or_first none t = t
or_first (some s) t = s

filled : (n : ℕ) → 0 < n → (n == 0) ≡ false
filled n h = ground arith

not_missing : (left : ℕ) → eqb_ℤ (pos left) ttl_key_not_found ≡ false
not_missing left = ground arith

not_endless : (left : ℕ) → eqb_ℤ (pos left) key_without_ttl ≡ false
not_endless left = ground arith

module _ {W : Type 0} (g : GoRedis W) (ranking : W → Text → List Z)
    (expires : W → Text → Option Time) (clock : W → Time × W)
    (a : Expiry g ranking expires (λ w. unix (clock w).0)) (still : (w : W) → (clock w).1 ≡ w) where
  -- The key goes at a time, nothing else changes.
  abbrev pub Lasts : Text → Time → W → W → Type 0
  Lasts lb t w w' =
      ((j : Text) → ranking w' j ≡ ranking w j)
      × (expires w' lb ≡ some t)
      × ((j : Text) → eq lb j ≡ false → expires w' j ≡ expires w j)

  ensured :
      (lb : Text) (e : ℤ) (w : W)
      → 0 < length (ranking w lb)
      → unix (clock w).0 <ℤ e
      → (w' : W) × (ensure_expiration (service g clock) lb e w ≡ (ok tt, w'))
        × Lasts lb (or_first (expires w lb) (at e 0)) w w'
  unfolding unix ensure_expiration get_leaderboard_expiration set_leaderboard_expiration
      Standalone.ttl Standalone.expire_at
  ensured lb e w h later = elim (Option-cases (expires w lb)) [
    | inl o ↦
        (let (left, q) = a.ttl_lem lb w in
          let (w', t, same, new) = a.expire_at_lem lb (at e 0) w h later in
          (
            w',
            rw q (rw (o, filled (length (ranking w lb)) h) (rw t refl)),
            (same, (new lb ∙ rw (eq_refl lb, o) refl), λ j k. new j ∙ rw k refl),
          ))
    | inr (s, o) ↦
        (let (left, q) = a.ttl_lem lb w in
          (
            w,
            rw q (
                rw (o, filled (length (ranking w lb)) h)
                  (rw (not_missing left) (rw (not_endless left) refl))),
            ((λ j. refl), (o ∙ rw o refl), λ j k. refl),
          ))
  ]

  -- What the name says is still to come.
  ahead :
      (lb : Text) (e : ℤ) (w : W)
      → get_expire_at (unix (clock w).0) lb ≡ ok e
      → eqb_ℤ e no_expiration ≡ false
      → unix (clock w).0 <ℤ e
  ahead lb e w named real =
      elim (subst (IsAhead (unix (clock w).0)) named
        (get_expire_at-IsAhead (unix (clock w).0) lb)) [
          | inl q ↦ absurd (ground (arith, q, real))
          | inr q ↦ q
        ]

  -- Over a server that answers and whose clock reads as that of the code, which leaves it as it
  -- is, for a leaderboard that has members and a name whose expiration at the time of the clock is
  -- not -1, persistLeaderboardExpirationTime succeeds: the key then goes at the time at which it
  -- went before, or, if it had none, at the expiration of the name; no sorted set and no
  -- expiration of another key changes.
  pub persist_leaderboard_expiration_time-Lasts :
      (lb : Text) (e : ℤ) (w : W)
      → get_expire_at (unix (clock w).0) lb ≡ ok e
      → eqb_ℤ e no_expiration ≡ false
      → 0 < length (ranking w lb)
      → (w' : W) × (persist_leaderboard_expiration_time (service g clock) lb w ≡ (ok tt, w'))
        × Lasts lb (or_first (expires w lb) (at e 0)) w w'
  unfolding persist_leaderboard_expiration_time ensure_by_name
  persist_leaderboard_expiration_time-Lasts lb e w named real h =
      let (w', q, l) = ensured lb e w h (ahead lb e w named real) in
      (w', rw named (rw (real, still w) q), l)
