-- ===== src/Api/Upsert.antt =====
-- api/leaderboard.go: BulkUpsertScores, UpsertScore, IncrementScore and
-- UpsertScoreMultiLeaderboards. A message field that is absent is none: its use panics.
use go_leaderboard.Base.{
  Bool, false, ◌||◌, if◌then◌else◌, List, [], ◌∷◌, map, Option, none, some, ◌==◌,
}
use go_leaderboard.Base.Int.{ℤ}
use go_leaderboard.Base.Effect.{M, pure, fail, crash, ◌>>=◌}
use go_leaderboard.Base.Bytes.{Text, codes, eq}
use go_leaderboard.Go.Float.{Float64, finite, infinite, nan, to_int, magnitude}
use go_leaderboard.Service.Defs.{Member}
use go_leaderboard.Service.Writes as Writes
use go_leaderboard.Service.Writes.{new_member}
use go_leaderboard.Api.Defs.{
  App, ApiError, status, service, invalid_argument, expired_is_invalid, get_score_ttl,
  MemberResponse, member_response, report,
}

pub record MemberScore : Type 0 where
  pub public_id : Text
  pub score : Float64

pub record BulkUpsertScoresRequest : Type 0 where
  pub leaderboard_id : Text
  pub prev_rank : Bool
  pub score_ttl : ℤ
  pub member_scores : Option (List MemberScore)

pub record UpsertScoreRequest : Type 0 where
  pub leaderboard_id : Text
  pub member_public_id : Text
  pub prev_rank : Bool
  pub score_ttl : ℤ
  pub score : Option Float64

pub record IncrementScoreRequest : Type 0 where
  pub leaderboard_id : Text
  pub member_public_id : Text
  pub score_ttl : ℤ
  pub increment : Option Float64

pub record MultiRequest : Type 0 where
  pub member_public_id : Text
  pub score_ttl : ℤ
  pub prev_rank : Bool
  pub score_multi_change : Option (Float64 × List Text)

pub record MultiResponse : Type 0 where
  pub leaderboard_id : Text
  pub member : MemberResponse

-- x == 0
abbrev is_zero : Float64 → Bool
is_zero (finite m k) = magnitude m == 0
is_zero (infinite s) = false
is_zero nan = false

unfoldable pub has_empty_id : List MemberScore → Bool
has_empty_id [] = false
has_empty_id (m ∷ ms) = eq m.public_id [] || has_empty_id ms

abbrev member_from : MemberScore → Member
member_from m = new_member m.public_id (to_int m.score)

module _ {W : Type 0} (app : App W) where
  unfoldable pub bulk_upsert_members :
      BulkUpsertScoresRequest → List MemberScore → M W ApiError (List MemberResponse)
  unfolding has_empty_id
  bulk_upsert_members req scores =
      if has_empty_id scores
      then fail (status invalid_argument (codes "publicID is required"))
      else do
        ms ← report app expired_is_invalid (
            Writes.set_members_score app.leaderboards req.leaderboard_id (map member_from scores)
              req.prev_rank (get_score_ttl req.score_ttl))
        pure (map member_response ms)

  unfoldable pub bulk_upsert_scores : BulkUpsertScoresRequest → M W ApiError (List MemberResponse)
  unfolding bulk_upsert_members
  bulk_upsert_scores req = elim req.member_scores [
    | none ↦ crash
    | some scores ↦ bulk_upsert_members req scores
  ]

  unfoldable pub upsert_score : UpsertScoreRequest → M W ApiError MemberResponse
  upsert_score req = elim req.score [
    | none ↦ crash
    | some score ↦ do
      m ← report app expired_is_invalid (
          Writes.set_member_score app.leaderboards req.leaderboard_id req.member_public_id
            (to_int score) req.prev_rank (get_score_ttl req.score_ttl))
      pure (member_response m)
  ]

  unfoldable pub increment_score : IncrementScoreRequest → M W ApiError MemberResponse
  increment_score req = elim req.increment [
    | none ↦ crash
    | some increment ↦
        if is_zero increment
        then fail (status invalid_argument (codes "increment is required"))
        else do
          m ← report app expired_is_invalid (
              Writes.increment_member_score app.leaderboards req.leaderboard_id req.member_public_id
                (to_int increment) (get_score_ttl req.score_ttl))
          pure (member_response m)
  ]

  -- The loop over the leaderboards, whose errors go out as they are.
  unfoldable pub upsert_each :
      MultiRequest → Float64 → List Text → M W ApiError (List MultiResponse)
  upsert_each req score [] = pure []
  upsert_each req score (l ∷ ls) = do
    m ← report app service (
        Writes.set_member_score app.leaderboards l req.member_public_id (to_int score) req.prev_rank
          (get_score_ttl req.score_ttl))
    rest ← upsert_each req score ls
    pure (record { leaderboard_id = l; member = member_response m } ∷ rest)

  unfoldable pub upsert_many :
      MultiRequest → Float64 × List Text → M W ApiError (List MultiResponse)
  unfolding upsert_each
  upsert_many req (score, []) = fail (status invalid_argument (codes "leaderboards is required"))
  upsert_many req (score, l ∷ ls) = upsert_each req score (l ∷ ls)

  unfoldable pub upsert_score_multi_leaderboards : MultiRequest → M W ApiError (List MultiResponse)
  unfolding upsert_many
  upsert_score_multi_leaderboards req = elim req.score_multi_change [
    | none ↦ crash
    | some change ↦ upsert_many req change
  ]
