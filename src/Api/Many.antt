-- ===== src/Api/Many.antt =====
-- api/leaderboard.go: GetAroundMember, GetAroundScore, GetTopMembers, GetTopPercentage, GetMembers.
use go_leaderboard.Base.{ℕ, suc, Bool, false, ◌||◌, if◌then◌else◌, List, [], ◌∷◌}
use go_leaderboard.Base.Int.{ℤ, pos, eqb_ℤ}
use go_leaderboard.Base.Effect.{M, pure, ◌>>=◌}
use go_leaderboard.Base.Bytes.{Text, codes, eq}
use go_leaderboard.Go.Word.{wrap32}
use go_leaderboard.Go.Float.{Float64, of_int, to_int, fmax}
use go_leaderboard.Go.Strconv.{split}
use go_leaderboard.Service.Errors.{ServiceError, message, percentage}
use go_leaderboard.Service.Defs.{Member}
use go_leaderboard.Service.Around as Around
use go_leaderboard.Service.Pages as Pages
use go_leaderboard.Service.Reads as Reads
use go_leaderboard.Api.Defs.{
  App, ApiError, status, service, invalid_argument, missing_is_not_found, get_order, get_page_size,
  default_page_size, RankResponse, new_member_rank_response_list, report, refuse, check_page_size,
}

pub record Position : Type 0 where
  pub public_id : Text
  pub score : Float64
  pub rank : ℤ
  pub expire_at : ℤ
  pub position : ℤ

pub record GetMembersResponse : Type 0 where
  pub members : List Position
  pub not_found : List Text

-- newGetMembersResponseList, from position i
unfoldable pub new_get_members_response_list : ℕ → List Member → List Position
new_get_members_response_list i [] = []
new_get_members_response_list i (m ∷ ms) =
    record {
      public_id = m.public_id;
      score = of_int m.score;
      rank = wrap32 m.rank;
      expire_at = wrap32 m.expire_at;
      position = wrap32 (pos i);
    }
    ∷ new_get_members_response_list (suc i) ms

-- The inner loop of GetMembers.
unfoldable pub is_found : Text → List Member → Bool
is_found id [] = false
is_found id (m ∷ ms) = eq m.public_id id || is_found id ms

unfoldable pub not_found_ids : List Text → List Member → List Text
unfolding is_found
not_found_ids [] ms = []
not_found_ids (id ∷ ids) ms =
    let rest = not_found_ids ids ms in if is_found id ms then rest else id ∷ rest

unfoldable pub bad_percentage : ServiceError → ApiError
bad_percentage (percentage p) = status invalid_argument (message (percentage p))
bad_percentage e = service e

module _ {W : Type 0} (app : App W) where
  unfoldable pub get_around_member :
      Text → Text → Text → Bool → ℤ → M W ApiError (List RankResponse)
  unfolding report check_page_size
  get_around_member leaderboard member order get_last size =
      let page_size = get_page_size size in
      check_page_size app page_size do
        ms ← report app (missing_is_not_found (codes "Member not found.")) (
            Around.get_around_me app.leaderboards leaderboard page_size member (get_order order)
              get_last)
        pure (new_member_rank_response_list ms)

  unfoldable pub get_around_score : Text → Float64 → Text → ℤ → M W ApiError (List RankResponse)
  unfolding report check_page_size
  get_around_score leaderboard score order size =
      let page_size = get_page_size size in
      check_page_size app page_size do
        ms ← report app (missing_is_not_found (codes "Member not found.")) (
            Around.get_around_score app.leaderboards leaderboard page_size (to_int score)
              (get_order order))
        pure (new_member_rank_response_list ms)

  unfoldable pub get_top_members : Text → ℤ → Text → ℤ → M W ApiError (List RankResponse)
  unfolding report check_page_size
  get_top_members leaderboard page_number order size =
      let page = to_int (fmax (of_int page_number) (of_int (pos 1))) in
      let page_size = get_page_size size in
      check_page_size app page_size do
        ms ←
            report app service
              (Pages.get_leaders app.leaderboards leaderboard page_size page (get_order order))
        pure (new_member_rank_response_list ms)

  unfoldable pub get_top_percentage : Text → ℤ → Text → M W ApiError (List RankResponse)
  unfolding report bad_percentage
  get_top_percentage leaderboard percent order =
      if eqb_ℤ percent (pos 0)
      then refuse app (codes "Percentage must be a valid integer between 1 and 100.")
      else do
        ms ← report app bad_percentage (
            Pages.get_top_percentage app.leaderboards leaderboard default_page_size percent
              app.max_returned_members (get_order order))
        pure (new_member_rank_response_list ms)

  unfoldable pub get_members : Text → Text → Bool → Text → M W ApiError GetMembersResponse
  unfolding report not_found_ids new_get_members_response_list
  get_members leaderboard order score_ttl ids =
      if eq ids []
      then refuse app (codes "Member IDs are required using the 'ids' querystring parameter")
      else do
        let member_ids = split ids
        ms ←
            report app service (
              Reads.get_members app.leaderboards leaderboard member_ids (get_order order) score_ttl)
        pure (record {
          members = new_get_members_response_list 0 ms;
          not_found = not_found_ids member_ids ms;
        })
