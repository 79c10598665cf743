-- ===== src/Api/Expired.antt =====
-- Writes to a leaderboard that has expired, through the two handlers that set one score.
use go_leaderboard.Base.{◌+◌, ◌<◌, ◌≡◌, refl, Bool, some, List, ◌∷◌, length}
use go_leaderboard.Base.Int.{ℤ}
use go_leaderboard.Base.Effect.{err}
use go_leaderboard.Base.Bytes.{Text}
use go_leaderboard.Go.Format.{sprintf, sprintf_plain, HasNoPercent}
use go_leaderboard.Go.Float.{Float64, to_int}
use go_leaderboard.Go.Time.{Time, unix}
use go_leaderboard.Redis.Defs.{GoRedis, Z}
use go_leaderboard.Redis.Answers.{Answers}
use go_leaderboard.Expiration.Errors as Exp
use go_leaderboard.Expiration.Name.{get_expire_at}
use go_leaderboard.Service.Errors.{message, leaderboard_expired}
use go_leaderboard.Service.Pages.Served.{service}
use go_leaderboard.Service.Around.Window.{limit}
use go_leaderboard.Service.Writes.Served.{Scored, set_member_score-expired}
use go_leaderboard.Api.Defs as Defs
use go_leaderboard.Api.Defs.{
  App, status, invalid_argument, get_score_ttl, report, expired_is_invalid,
}
use go_leaderboard.Api.Upsert.{
  UpsertScoreRequest, MultiRequest, upsert_score, upsert_each, upsert_many,
  upsert_score_multi_leaderboards,
}

-- Both requests set one score of one member; the second has a list of leaderboards.
abbrev pub one : Text → Text → Float64 → Bool → ℤ → UpsertScoreRequest
one lb m x prev ttl = record {
  leaderboard_id = lb;
  member_public_id = m;
  prev_rank = prev;
  score_ttl = ttl;
  score = some x;
}

abbrev pub several : List Text → Text → Float64 → Bool → ℤ → MultiRequest
several ls m x prev ttl = record {
  member_public_id = m;
  score_ttl = ttl;
  prev_rank = prev;
  score_multi_change = some (x, ls);
}

message_plain : (lb : Text) → HasNoPercent lb → HasNoPercent (message (leaderboard_expired lb))
unfolding message
message_plain lb h = h

module _ {W : Type 0} (g : GoRedis W) (ranking : W → Text → List Z) (a : Answers g ranking)
    (clock : W → Time × W) (still : (w : W) → (clock w).1 ≡ w) (max : ℤ) (add_error : W → W) where
  abbrev pub app : App W
  app = record { leaderboards = service g clock; max_returned_members = max; add_error = add_error }

  -- Over a server that answers and a clock that leaves it as it is, with fewer than 2^62 - 1
  -- members, for a name that has expired at every reading of the clock, UpsertScore and
  -- UpsertScoreMultiLeaderboards, if the name is the first of the list, both fail and count one
  -- error, the first with InvalidArgument and the message as Sprintf reads it as a format, which
  -- is the message itself for a name without a percent sign, the second with the error of the
  -- service as it is; both have written the score in the sorted set all the same.
  pub upsert-expired :
      (lb : Text) (ls : List Text) (m : Text) (x : Float64) (prev : Bool) (ttl : ℤ) (w : W)
      → length (ranking w lb) + 1 < limit
      → ((v : W) → get_expire_at (unix (clock v).0) lb ≡ err (Exp.leaderboard_expired lb))
      → (w' : W) × (upsert_score app (one lb m x prev ttl) w ≡ (
        err (status invalid_argument (sprintf (message (leaderboard_expired lb)))),
        add_error w',
      ))
        × (upsert_score_multi_leaderboards app (several (lb ∷ ls) m x prev ttl) w
            ≡ (err (Defs.service (leaderboard_expired lb)), add_error w'))
        × Scored g ranking a clock still lb m (to_int x) w w'
        × (HasNoPercent lb
            → sprintf (message (leaderboard_expired lb)) ≡ message (leaderboard_expired lb))
  unfolding upsert_score upsert_score_multi_leaderboards upsert_many upsert_each report
      expired_is_invalid
  upsert-expired lb ls m x prev ttl w few past =
      let (w', e, r) =
        set_member_score-expired g ranking a clock still lb m (to_int x) prev (get_score_ttl ttl) w
          few past in
      (w', rw e refl, rw e refl, r, λ h. sprintf_plain _ (message_plain lb h))
