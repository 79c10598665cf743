-- ===== src/Api/Single.antt =====
-- api/leaderboard.go: GetMember, GetRank, GetRankMultiLeaderboards and TotalMembers.
use go_leaderboard.Base.{Bool, if◌then◌else◌, List, [], ◌∷◌}
use go_leaderboard.Base.Int.{ℤ}
use go_leaderboard.Base.Effect.{M, pure, ◌>>=◌}
use go_leaderboard.Base.Bytes.{Text, codes, eq}
use go_leaderboard.Go.Word.{wrap32}
use go_leaderboard.Go.Float.{Float64, of_int}
use go_leaderboard.Go.Strconv.{split}
use go_leaderboard.Service.Reads as Reads
use go_leaderboard.Service.Pages as Pages
use go_leaderboard.Api.Defs.{
  App, ApiError, service, missing_is_not_found, get_order, MemberResponse, member_response, report,
  refuse,
}

pub record GetRankResponse : Type 0 where
  pub public_id : Text
  pub rank : ℤ

pub record LeaderboardRank : Type 0 where
  pub leaderboard_id : Text
  pub rank : ℤ
  pub score : Float64
  pub expire_at : ℤ

module _ {W : Type 0} (app : App W) where
  unfoldable pub get_member : Text → Text → Text → Bool → M W ApiError MemberResponse
  unfolding report
  get_member leaderboard member order score_ttl = do
    m ←
        report app (missing_is_not_found (codes "Member not found."))
          (Reads.get_member app.leaderboards leaderboard member (get_order order) score_ttl)
    pure (member_response m)

  unfoldable pub get_rank : Text → Text → Text → M W ApiError GetRankResponse
  unfolding report
  get_rank leaderboard member order = do
    rank ←
        report app (missing_is_not_found (codes "Member not found."))
          (Reads.get_rank app.leaderboards leaderboard member (get_order order))
    pure (record { public_id = member; rank = wrap32 rank })

  -- The loop over the leaderboards.
  unfoldable pub rank_each : Text → Text → Bool → List Text → M W ApiError (List LeaderboardRank)
  unfolding report
  rank_each member order score_ttl [] = pure []
  rank_each member order score_ttl (l ∷ ls) = do
    m ←
        report app
          (missing_is_not_found
            (codes "Leaderboard not found or member not found req leaderboard."))
          (Reads.get_member app.leaderboards l member order score_ttl)
    rest ← rank_each member order score_ttl ls
    pure (
        record {
          leaderboard_id = l;
          rank = wrap32 m.rank;
          score = of_int m.score;
          expire_at = wrap32 m.expire_at;
        }
        ∷ rest)

  unfoldable pub get_rank_multi_leaderboards :
      Text → Text → Text → Bool → M W ApiError (List LeaderboardRank)
  unfolding rank_each
  get_rank_multi_leaderboards member leaderboard_ids order score_ttl =
      if eq leaderboard_ids []
      then refuse app
          (codes "Leaderboard IDs are required using the 'leaderboardIds' querystring parameter")
      else rank_each member (get_order order) score_ttl (split leaderboard_ids)

  unfoldable pub total_members : Text → M W ApiError ℤ
  unfolding report
  total_members leaderboard = do
    count ← report app service (Pages.total_members app.leaderboards leaderboard)
    pure (wrap32 count)
