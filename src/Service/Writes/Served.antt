-- ===== src/Service/Writes/Served.antt =====
-- SetMemberScore over a server that answers, for a name without an expiration and for one that
-- has expired.
use mathlib.Core.List.{reverse}
use go_leaderboard.Base.{
  ℕ, ◌+◌, ◌<◌, ◌≡◌, refl, ap, arith, Bool, if◌then◌else◌, some, List, [], length,
}
use go_leaderboard.Base.Int.{ℤ}
use go_leaderboard.Base.Effect.{ok, err}
use go_leaderboard.Base.Bytes.{Text, codes, eq}
use go_leaderboard.Go.Float.{of_int, to_int-of_int, magnitude}
use go_leaderboard.Go.Time.{Time, unix}
use go_leaderboard.Redis.Defs.{GoRedis, Z}
use go_leaderboard.Redis.Answers.{Answers}
use go_leaderboard.Redis.Sorted.{position, add_one}
use go_leaderboard.Expiration.Name.{get_expire_at, no_expiration}
use go_leaderboard.Expiration.Errors as Exp
use go_leaderboard.Service.Errors.{leaderboard_expired}
use go_leaderboard.Service.Defs.{Member}
use go_leaderboard.Service.Members.{expiration, ensure_by_name, persist_leaderboard_expiration_time}
use go_leaderboard.Service.Pages.Served.{service}
use go_leaderboard.Service.Around.Window.{limit}
use go_leaderboard.Service.Writes.{new_member, after_scores, write_scores, set_member_score}
use go_leaderboard.Service.Writes.Placed.{
  entry, written, rank_before, previous_ranks-served, set_members_values-served, persisted,
  after_scores-served,
}

module _ {W : Type 0} (g : GoRedis W) (ranking : W → Text → List Z) (a : Answers g ranking)
    (clock : W → Time × W) (still : (w : W) → (clock w).1 ≡ w) where
  -- Every sorted set after one score is written.
  abbrev pub Scored : Text → Text → ℤ → W → W → Type 0
  Scored lb m score w w' =
      (k : Text)
      → ranking w' k ≡ (if eq lb k then add_one (entry m score) (ranking w lb) else ranking w k)

  abbrev pub first_member : Text → Text → ℤ → Bool → W → Member
  first_member lb m score prev w = record (new_member m score) {
    previous_rank = rank_before g ranking a clock still lb m prev w;
  }

  -- Over a server that answers and a clock that leaves it as it is, for a name that never expires,
  -- a score below 2^53 in magnitude, fewer than 2^62 - 1 members and no time to live,
  -- SetMemberScore succeeds: it answers with the score, with the member's rank from 1 in the
  -- sorted set after the call, with the rank from before it (-1 for a new member) if that was
  -- asked for and else 0, and with no expiration; the sorted set of the leaderboard is the old one
  -- with the member placed by its score, and no other sorted set changes.
  pub set_member_score-served :
      (lb m : Text) (score : ℤ) (prev : Bool) (w : W)
      → magnitude score < 9007199254740992
      → length (ranking w lb) + 1 < limit
      → ((t : ℤ) → get_expire_at t lb ≡ ok no_expiration)
      → (w' : W) × (j : ℕ) × (set_member_score (service g clock) lb m score prev [] w
          ≡ (ok (written m score j (rank_before g ranking a clock still lb m prev w)), w'))
        × (position m (reverse (ranking w' lb)) ≡ some j)
        × Scored lb m score w w'
  unfolding set_member_score write_scores
  set_member_score-served lb m score prev w small few plain =
      let p = first_member lb m score prev w in
      let (w', j, e, s, q, short, r) = persisted g ranking a clock still lb p w few in
      (
        w',
        j,
        rw
            (previous_ranks-served g ranking a clock still (codes "set member score") lb m score
              prev w (omega arith))
            (rw e (
              rw
                (after_scores-served g ranking a clock still (codes "set member score") lb p w'
                  (of_int score) j s q short plain)
                (rw (to_int-of_int score small) refl))),
        q,
        r,
      )

  persist_expiration-expired :
      (lb : Text) (w : W)
      → get_expire_at (unix (clock w).0) lb ≡ err (Exp.leaderboard_expired lb)
      → persist_leaderboard_expiration_time (service g clock) lb w
        ≡ (err (expiration (Exp.leaderboard_expired lb)), w)
  unfolding persist_leaderboard_expiration_time ensure_by_name
  persist_expiration-expired lb w h =
      rw h (ap (λ (u : W). (err (expiration (Exp.leaderboard_expired lb)), u)) (still w))

  -- Over a server that answers and a clock that leaves it as it is, with fewer than 2^62 - 1
  -- members, for a name that has expired at every reading of the clock, SetMemberScore fails with
  -- LeaderboardExpiredError whatever the time to live, after the score was written: the sorted set
  -- has the member with its score, and no other sorted set changes.
  pub set_member_score-expired :
      (lb m : Text) (score : ℤ) (prev : Bool) (ttl : Text) (w : W)
      → length (ranking w lb) + 1 < limit
      → ((v : W) → get_expire_at (unix (clock v).0) lb ≡ err (Exp.leaderboard_expired lb))
      → (w' : W) × (set_member_score (service g clock) lb m score prev ttl w
          ≡ (err (leaderboard_expired lb), w'))
        × Scored lb m score w w'
  unfolding set_member_score write_scores after_scores
  set_member_score-expired lb m score prev ttl w few past =
      let p = first_member lb m score prev w in
      let (w', j, e, s, q, short, r) = persisted g ranking a clock still lb p w few in
      (
        w',
        rw
            (previous_ranks-served g ranking a clock still (codes "set member score") lb m score
              prev w (omega arith))
            (rw e (
              rw
                (set_members_values-served g ranking a clock still lb p w' (of_int score) j s q
                  short)
                (rw (persist_expiration-expired lb w' (past w')) refl))),
        r,
      )
