-- ===== src/Worker/Served.antt =====
-- The worker over the redis database of a server: which members of a leaderboard go.
use go_leaderboard.Base.{
  ℕ, ◌<◌, ◌==◌, ◌≡◌, refl, ap, ◌∙◌, sym, arith, true, false, ◌||◌, if◌then◌else◌, List, [], ◌∷◌,
  length, take, Bool-cases, inl, inr,
}
use go_leaderboard.Base.Int.{ℤ, pos}
use go_leaderboard.Base.Effect.{ok, err}
use go_leaderboard.Base.Bytes.{Text, eq, eq_iff}
use go_leaderboard.Go.Word.{IsInt64}
use go_leaderboard.Go.Float.{of_int}
use go_leaderboard.Go.Time.{Time, unix}
use go_leaderboard.Redis.Defs.{GoRedis, Z}
use go_leaderboard.Redis.Removes.{Removes, without_all, due, absent_from}
use go_leaderboard.Redis.Standalone as Standalone
use go_leaderboard.Redis.Standalone.{client}
use go_leaderboard.Database.Errors.{without_member_to_expire}
use go_leaderboard.Database.Order.{ttl_key, expiration_set}
use go_leaderboard.Database.Redis.{redis_expiration}
use go_leaderboard.Database.Expiring as Expiring
use go_leaderboard.Database.Served.Names.{ttl_key-ne}
use go_leaderboard.Database.Expiring.{get_members_to_expire, remove_leaderboard_from_expire_list}
use go_leaderboard.Worker.{Worker, expire_found, expire_refused, expire_members_from_leaderboard}

module _ (k l : Text) (f : List Z → List Z) (before between after : Text → List Z)
    (r : (j : Text) → between j ≡ (if eq k j then f (before k) else before j))
    (q : (j : Text) → after j ≡ (if eq l j then f (between l) else between j))
    (ne : eq k l ≡ true → ⊥) where
  at_first :
      (j : Text) → eq k j ≡ true → after j ≡ (if eq k j || eq l j then f (before j) else before j)
  at_first j e = elim (Bool-cases (eq l j)) [
    | inl d ↦ absurd (ne ((eq_iff k l).1 ((eq_iff k j).0 e ∙ sym ((eq_iff l j).0 d))))
    | inr d ↦ q j ∙ rw (d, e) (rw (r j) (rw e (ap (λ (i : Text). f (before i)) ((eq_iff k j).0 e))))
  ]

  at_other :
      (j : Text) → eq k j ≡ false → after j ≡ (if eq k j || eq l j then f (before j) else before j)
  at_other j e = elim (Bool-cases (eq l j)) [
    | inl d ↦
        q j
        ∙ rw (d, e)
            (ap (λ (i : Text). f (between i)) ((eq_iff l j).0 d) ∙ ap f (rw (r j) (rw e refl)))
    | inr d ↦ q j ∙ rw (d, e) (rw (r j) (rw e refl))
  ]

  -- Two keys changed one after the other.
  both_changed : (j : Text) → after j ≡ (if eq k j || eq l j then f (before j) else before j)
  both_changed j = elim (Bool-cases (eq k j)) [ inl e ↦ at_first j e | inr e ↦ at_other j e ]

abbrev pub worker : {W : Type 0} → GoRedis W → (W → Time × W) → ℕ → Worker W
worker g clock n = record {
  database = redis_expiration (client g);
  clock = clock;
  expiration_limit_per_run = pos n;
}

module _ {W : Type 0} (g : GoRedis W) (ranking : W → Text → List Z) (sets : W → Text → List Text)
    (a : Removes g ranking sets) (clock : W → Time × W) (still : (w : W) → (clock w).1 ≡ w) where
  -- The members whose time has come, at most as many as a run takes.
  abbrev pub expired : ℕ → Text → W → List Text
  expired n lb w = take n (due (of_int (unix (clock w).0)) (ranking w (ttl_key lb)))

  none_to_expire :
      (lb : Text) (n : ℤ) (t : Time) (w : W)
      → length (ranking w (ttl_key lb)) ≡ 0
      → get_members_to_expire (client g) lb n t w ≡ (err (without_member_to_expire lb), w)
  unfolding get_members_to_expire Standalone.exists
  none_to_expire lb n t w h = rw (a.exists_lem (ttl_key lb) w) (rw h refl)

  some_to_expire :
      (lb : Text) (n : ℕ) (t : Time) (w : W)
      → 0 < length (ranking w (ttl_key lb))
      → 0 < n
      → IsInt64 (unix t)
      → get_members_to_expire (client g) lb (pos n) t w
        ≡ (ok (take n (due (of_int (unix t)) (ranking w (ttl_key lb)))), w)
  unfolding get_members_to_expire Standalone.exists Standalone.zrange_by_score
  some_to_expire lb n t w h p b =
      rw (a.exists_lem (ttl_key lb) w) (elim (Bool-cases (length (ranking w (ttl_key lb)) == 0)) [
        | inl e ↦ absurd (ground arith)
        | inr e ↦ rw e (rw (a.due_lem (ttl_key lb) (unix t) n w p b) refl)
      ])

  abbrev pub Cleared : Text → List Text → W → W → Type 0
  Cleared lb ms w w' =
      (j : Text)
      → ranking w' j
        ≡ (if eq lb j || eq (ttl_key lb) j then without_all ms (ranking w j) else ranking w j)

  expire_members-Cleared :
      (lb : Text) (ms : List Text) (w : W)
      → 0 < length ms
      → (w' : W) × (Expiring.expire_members (client g) lb ms w ≡ (ok tt, w')) × Cleared lb ms w w'
  unfolding Expiring.expire_members Standalone.zrem
  expire_members-Cleared lb ms w some_of =
      let (n, w1, e, r) = a.zrem_lem lb ms w some_of in
      let (n', w2, e', r') = a.zrem_lem (ttl_key lb) ms w1 some_of in
      (
        w2,
        rw e (rw e' refl),
        both_changed lb (ttl_key lb) (without_all ms) (ranking w) (ranking w1) (ranking w2) r r'
            (ttl_key-ne lb),
      )

  abbrev Gone : ℕ → Text → W → Type 0
  Gone n lb w =
      let ms = expired n lb w in
      (w' : W) × (expire_members_from_leaderboard (worker g clock n) lb w
        ≡ (ok (record { deleted_members = length ms; deleted_set = false; set = lb }), w'))
      × Cleared lb ms w w'

  found_gone :
      (n : ℕ) (lb : Text) (ms : List Text) (w : W)
      → (w' : W) × (expire_found (worker g clock n) lb ms w
          ≡ (ok (record { deleted_members = length ms; deleted_set = false; set = lb }), w'))
        × Cleared lb ms w w'
  unfolding expire_found without_all
  found_gone n lb [] w = (w, refl, λ j. ground arith)
  found_gone n lb (m ∷ ms) w =
      let (w', e, c) = expire_members-Cleared lb (m ∷ ms) w (omega arith) in (w', rw e refl, c)

  -- Over a server that answers and a clock that leaves it as it is, for a leaderboard with times
  -- to expire, a limit from 1 and a clock that reads a 64-bit time, the worker removes exactly the
  -- members whose time is not after the clock, the first of them if they are more than the limit,
  -- from the leaderboard and from its times; it reports their number, and no other sorted set
  -- changes.
  pub expire_members_from_leaderboard-Cleared :
      (n : ℕ) (lb : Text) (w : W)
      → 0 < n
      → IsInt64 (unix (clock w).0)
      → 0 < length (ranking w (ttl_key lb))
      → Gone n lb w
  unfolding expire_members_from_leaderboard
  expire_members_from_leaderboard-Cleared n lb w p b h =
      let (w', e, c) = found_gone n lb (expired n lb w) w in
      (w', rw (still w) (rw (some_to_expire lb n (clock w).0 w h p b) e), c)

  -- The leaderboard leaves the set, and no sorted set changes.
  abbrev pub Unlisted : Text → W → W → Type 0
  Unlisted lb w w' =
      ((j : Text) → ranking w' j ≡ ranking w j)
      × ((j : Text)
          → sets w' j ≡ (
              if eq expiration_set j
              then absent_from (ttl_key lb ∷ []) (sets w expiration_set)
              else sets w j))

  -- Over a server that answers and a clock that leaves it as it is, for a leaderboard without
  -- times to expire, the worker takes its key out of the set of leaderboards with expirations and
  -- reports so; no sorted set and no other set changes.
  pub expire_members_from_leaderboard-Unlisted :
      (n : ℕ) (lb : Text) (w : W)
      → length (ranking w (ttl_key lb)) ≡ 0
      → (w' : W) × (expire_members_from_leaderboard (worker g clock n) lb w
          ≡ (ok (record { deleted_members = 0; deleted_set = true; set = lb }), w'))
        × Unlisted lb w w'
  unfolding expire_members_from_leaderboard expire_refused remove_leaderboard_from_expire_list
      Standalone.srem
  expire_members_from_leaderboard-Unlisted n lb w h =
      let (_, w', e, same, gone) = a.srem_lem expiration_set (ttl_key lb ∷ []) w (omega arith) in
      (w', rw (still w) (rw (none_to_expire lb (pos n) (clock w).0 w h) (rw e refl)), (same, gone))
