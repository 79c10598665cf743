-- ===== src/Service/Writes/Timed.antt =====
-- SetMemberScore with a time to live, over a server that answers.

use go_leaderboard.Base.{
  ℕ, ◌+◌, ◌*◌, ◌<◌, ◌≡◌, refl, ap, ◌∙◌, arith, Bool, true, false, if◌then◌else◌, Option, List, [],
  ◌∷◌, length, Bool-cases, inl, inr,
}
use go_leaderboard.Base.Int.{ℤ, pos, ◌+ℤ◌}
use go_leaderboard.Base.Effect.{ok}
use go_leaderboard.Base.Bytes.{Text, codes, eq, eq_iff}
use go_leaderboard.Go.Word.{half64}
use go_leaderboard.Go.Float.{of_int, to_int-of_int, magnitude}
use go_leaderboard.Go.Strconv.{parse_int, format_int, ParseError}
use go_leaderboard.Go.Digits.{parse_int-format_int}
use go_leaderboard.Go.Time.{Time, at, unix, add, nanos, floor_div}
use go_leaderboard.Redis.Defs.{GoRedis, Z}
use go_leaderboard.Redis.Answers.{Answers}
use go_leaderboard.Redis.Removes.{Removes, has}
use go_leaderboard.Redis.Sorted.{add_one, add_all}
use go_leaderboard.Redis.Standalone as Standalone
use go_leaderboard.Database.Order.{ttl_key, expiration_set}
use go_leaderboard.Database.Served.Names.{ttl_key-other}
use go_leaderboard.Database.Scores.{set_members_ttl, with_ttl}
use go_leaderboard.Expiration.Name.{get_expire_at, no_expiration}
use go_leaderboard.Service.Defs.{Member}
use go_leaderboard.Service.Members.{persist_members_ttl, persist_times, timed, expiring}
use go_leaderboard.Service.Pages.Served.{service, mul_small}
use go_leaderboard.Service.Around.Window.{limit}
use go_leaderboard.Service.Writes.{store_ttl, after_scores, write_scores, set_member_score}
use go_leaderboard.Service.Writes.Placed.{
  entry, written, rank_before, previous_ranks-served, set_members_values-served,
  persist_expiration-plain, persisted,
}
use go_leaderboard.Service.Writes.Served.{first_member}

add_seconds :
    (sec n ttl : ℕ) → n < nanos → unix (add (at (pos sec) n) (pos (ttl * nanos))) ≡ pos (sec + ttl)
unfolding add unix floor_div ◌+ℤ◌
add_seconds sec n ttl h = ground arith

empty-unread : (n : ℕ) → n < half64 → format_int (pos n) ≡ [] → ⊥
unfolding parse_int
empty-unread n h e = cc (
  ap (λ (t : Text). (parse_int half64 t).1) e,
  ap (λ (q : ℤ × Option ParseError). q.1) (parse_int-format_int (pos n) (h, omega arith)),
)

printed-ne-nil : (n : ℕ) → n < half64 → eq (format_int (pos n)) [] ≡ false
printed-ne-nil n h = elim (Bool-cases (eq (format_int (pos n)) [])) [
  | inl e ↦ absurd (empty-unread n h ((eq_iff (format_int (pos n)) []).0 e))
  | inr e ↦ e
]

module _ {W : Type 0} (g : GoRedis W) (ranking : W → Text → List Z) (sets : W → Text → List Text)
    (a : Answers g ranking) (r : Removes g ranking sets) (clock : W → Time × W)
    (still : (w : W) → (clock w).1 ≡ w) (sec n : ℕ)
    (reads : (w : W) → (clock w).0 ≡ at (pos sec) n) where
  persist_members_ttl-served :
      (lb : Text) (p : Member) (ttl : ℕ) (w : W)
      → n < nanos
      → ttl < 2147483648
      → (w' : W) × (persist_members_ttl (service g clock) lb (p ∷ []) (format_int (pos ttl)) w
          ≡ (ok (record p { expire_at = pos (sec + ttl) } ∷ []), w'))
        × (has (ttl_key lb) (sets w' expiration_set) ≡ true)
        × ((k : Text)
            → ranking w' k ≡ (
                if eq (ttl_key lb) k
                then add_one (entry p.public_id (pos (sec + ttl))) (ranking w (ttl_key lb))
                else ranking w k))
  unfolding persist_members_ttl persist_times timed expiring set_members_ttl with_ttl
      Standalone.zadd Standalone.sadd add_all
  persist_members_ttl-served lb p ttl w h b =
      let (_, w1, e, z) =
        a.zadd_lem (ttl_key lb) (entry p.public_id (pos (sec + ttl)) ∷ []) w (omega arith) in
      let (_, w2, e', same, listed) = r.sadd_lem expiration_set (ttl_key lb) w1 in
      (
        w2,
        rw (parse_int-format_int (pos ttl) (omega arith, omega arith)) (
            rw (still w) (
              rw (reads w) (
                rw (mul_small ttl nanos (omega arith))
                  (rw (add_seconds sec n ttl h) (rw e (rw e' refl)))))),
        listed,
        λ k. same k ∙ z k,
      )

  -- Every sorted set after one score and one time are written.
  abbrev pub ScoredUntil : Text → Text → ℤ → ℕ → W → W → Type 0
  ScoredUntil lb m score until w w' =
      (k : Text)
      → ranking w' k ≡ (
          if eq (ttl_key lb) k
          then add_one (entry m (pos until)) (ranking w (ttl_key lb))
          else if eq lb k
          then add_one (entry m score) (ranking w lb)
          else ranking w k)

  -- Over a server that answers and a clock that leaves it as it is and always reads the same time,
  -- from 1970 on, for a name that never expires, a score below 2^53 in magnitude, fewer than 2^62
  -- - 1 members and a time to live below 2^31 seconds, printed in decimal, SetMemberScore succeeds
  -- and answers with the time of the clock plus the time to live as the expiration; the key of the
  -- times of the leaderboard is in the set of expirations, the member is placed with that time
  -- among the times and with its score in the leaderboard, and no other sorted set changes.
  pub set_member_score-timed :
      (lb m : Text) (score : ℤ) (prev : Bool) (ttl : ℕ) (w : W)
      → magnitude score < 9007199254740992
      → length (ranking w lb) + 1 < limit
      → ((t : ℤ) → get_expire_at t lb ≡ ok no_expiration)
      → n < nanos
      → ttl < 2147483648
      → (w' : W) × (j : ℕ) × (set_member_score
            (service g clock)
            lb
            m
            score
            prev
            (format_int (pos ttl))
            w
          ≡ (
            ok (record (written m score j (rank_before g ranking a clock still lb m prev w)) {
              expire_at = pos (sec + ttl);
            }),
            w',
          ))
        × (has (ttl_key lb) (sets w' expiration_set) ≡ true)
        × ScoredUntil lb m score (sec + ttl) w w'
  unfolding set_member_score write_scores after_scores store_ttl
  set_member_score-timed lb m score prev ttl w small few plain h b =
      let p = first_member g ranking a clock still lb m score prev w in
      let (w1, j, e, s, q, short, z) = persisted g ranking a clock still lb p w few in
      let (w2, e', listed, z') =
        persist_members_ttl-served lb
          (written m score j (rank_before g ranking a clock still lb m prev w)) ttl w1 h b in
      (
        w2,
        j,
        rw
            (previous_ranks-served g ranking a clock still (codes "set member score") lb m score
              prev w (omega arith))
            (rw e (
              rw
                (set_members_values-served g ranking a clock still lb p w1 (of_int score) j s q
                  short)
                (rw (persist_expiration-plain g ranking a clock still lb w1 plain) (
                  rw (to_int-of_int score small)
                    (rw (printed-ne-nil ttl (omega arith)) (rw e' refl)))))),
        listed,
        λ k. elim (Bool-cases (eq (ttl_key lb) k)) [
          | inl t ↦
              z' k
              ∙ rw t (
                  ap (add_one (entry m (pos (sec + ttl))))
                    (z (ttl_key lb) ∙ rw (ttl_key-other lb) refl))
          | inr t ↦ z' k ∙ rw t (z k)
        ],
      )
