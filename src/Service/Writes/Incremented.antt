-- ===== src/Service/Writes/Incremented.antt =====
-- IncrementMemberScore over a server that answers, for a name without an expiration.
use mathlib.Core.List.{reverse}
use go_leaderboard.Base.{ℕ, ◌+◌, ◌<◌, ◌≡◌, refl, ◌∙◌, List, [], length, some}
use go_leaderboard.Base.Int.{ℤ, pos, ◌+ℤ◌}
use go_leaderboard.Base.Effect.{ok}
use go_leaderboard.Base.Bytes.{Text, codes, eq_refl}
use go_leaderboard.Go.Float.{of_int, to_int-of_int, magnitude}
use go_leaderboard.Go.Time.{Time}
use go_leaderboard.Redis.Defs.{GoRedis, Z}
use go_leaderboard.Redis.Answers.{Answers}
use go_leaderboard.Redis.Increments.{Increments, IsScore}
use go_leaderboard.Redis.Sorted.{position, score_of}
use go_leaderboard.Redis.Standalone as Standalone
use go_leaderboard.Database.Scores as Scores
use go_leaderboard.Expiration.Name.{get_expire_at, no_expiration}
use go_leaderboard.Service.Pages.Served.{service}
use go_leaderboard.Service.Around.Window.{limit}
use go_leaderboard.Service.Writes.{new_member, increment_member_score}
use go_leaderboard.Service.Writes.Placed.{written, placed, after_scores-served}
use go_leaderboard.Service.Writes.Served.{Scored}

module _ {W : Type 0} (g : GoRedis W) (ranking : W → Text → List Z) (a : Answers g ranking)
    (b : Increments g ranking) (clock : W → Time × W) (still : (w : W) → (clock w).1 ≡ w) where
  -- Over a server that answers and adds whole scores exactly up to 53 bits and a clock that leaves
  -- it as it is, for a name that never expires, fewer than 2^62 - 1 members, no time to live, and
  -- a score (0 for a new member), an increment and a sum below 2^53 in magnitude,
  -- IncrementMemberScore answers with the sum, with the rank from 1 of the member in the sorted
  -- set after the call and with no previous rank and no expiration; the member is placed by the
  -- sum, and no other sorted set changes.
  pub increment_member_score-served :
      (lb m : Text) (score increment : ℤ) (w : W)
      → IsScore (score_of m (ranking w lb)) score
      → magnitude score < 9007199254740992
      → magnitude increment < 9007199254740992
      → magnitude (score +ℤ increment) < 9007199254740992
      → length (ranking w lb) + 1 < limit
      → ((t : ℤ) → get_expire_at t lb ≡ ok no_expiration)
      → (w' : W) × (j : ℕ) × (increment_member_score (service g clock) lb m increment [] w
          ≡ (ok (written m (score +ℤ increment) j (pos 0)), w'))
        × (position m (reverse (ranking w' lb)) ≡ some j)
        × Scored g ranking a clock still lb m (score +ℤ increment) w w'
  unfolding increment_member_score Scores.increment_member_score Standalone.zincrby
  increment_member_score-served lb m score increment w old p q t few plain =
      let (_, w', e, r) = b.zincrby_lem lb m score increment w old p q t in
      let (j, s, here, short) =
        placed g ranking a clock still lb m (score +ℤ increment) w w' few
          (r lb ∙ rw (eq_refl lb) refl) in
      (
        w',
        j,
        rw e (
            rw
              (after_scores-served g ranking a clock still (codes "increment member score") lb
                (new_member m increment) w' (of_int (score +ℤ increment)) j s here short plain)
              (rw (to_int-of_int (score +ℤ increment) t) refl)),
        here,
        r,
      )
