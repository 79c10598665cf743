-- ===== src/Api/Defs.antt =====
-- api/leaderboard.go and api/app.go: what the handlers share. The application holds the service,
-- the configured limit and the error statistics; logs, traces and metrics are left out.
use go_leaderboard.Base.{Bool, ◌&&◌, ◌||◌, not, if◌then◌else◌, List, [], ◌++◌, map}
use go_leaderboard.Base.Int.{ℤ, pos, eqb_ℤ, ltb_ℤ}
use go_leaderboard.Base.Effect.{M, err, pure, fail, handle}
use go_leaderboard.Base.Bytes.{Text, codes, eq, has_prefix}
use go_leaderboard.Go.Word.{wrap32}
use go_leaderboard.Go.Float.{Float64, of_int}
use go_leaderboard.Go.Format.{sprintf}
use go_leaderboard.Go.Strconv.{format_int}
use go_leaderboard.Service.Errors.{ServiceError, message, leaderboard_expired}
use go_leaderboard.Service.Defs.{Service, Member}

-- `add_error` is app.Errors.Update(1).
pub record App (W : Type 0) : Type 0 where
  pub leaderboards : Service W
  pub max_returned_members : ℤ
  pub add_error : W → W

pub data Code : Type 0 where
  ok_code invalid_argument not_found unauthenticated internal : Code

-- An error of the package status, or one of the service as it is.
pub data ApiError : Type 0 where
  status : Code → Text → ApiError
  service : ServiceError → ApiError

abbrev pub not_found_error : Text
not_found_error = codes "Could not find data for member"

-- strings.HasPrefix(err.Error(), notFoundError)
unfoldable pub is_not_found : ServiceError → Bool
is_not_found e = has_prefix (message e) not_found_error

-- How each handler sees an error of the service. The message goes to status.Errorf as the format.
unfoldable pub expired_is_invalid : ServiceError → ApiError
expired_is_invalid (leaderboard_expired l) =
    status invalid_argument (sprintf (message (leaderboard_expired l)))
expired_is_invalid e = service e

unfoldable pub missing_is_not_found : Text → ServiceError → ApiError
unfolding is_not_found
missing_is_not_found msg e = if is_not_found e then status not_found msg else service e

unfoldable pub get_score_ttl : ℤ → Text
get_score_ttl ttl = if eqb_ℤ ttl (pos 0) then [] else format_int ttl

unfoldable pub get_order : Text → Text
get_order order =
    if eq order [] || (not (eq order (codes "asc")) && not (eq order (codes "desc")))
    then codes "desc"
    else order

abbrev pub default_page_size : ℤ
default_page_size = pos 20

unfoldable pub get_page_size : ℤ → ℤ
get_page_size page_size = if eqb_ℤ page_size (pos 0) then default_page_size else page_size

-- The fields that the responses about one member share.
pub record MemberResponse : Type 0 where
  pub public_id : Text
  pub score : Float64
  pub rank : ℤ
  pub previous_rank : ℤ
  pub expire_at : ℤ

unfoldable pub member_response : Member → MemberResponse
member_response m = record {
  public_id = m.public_id;
  score = of_int m.score;
  rank = wrap32 m.rank;
  previous_rank = wrap32 m.previous_rank;
  expire_at = wrap32 m.expire_at;
}

pub record RankResponse : Type 0 where
  pub public_id : Text
  pub score : Float64
  pub rank : ℤ

abbrev rank_response : Member → RankResponse
rank_response m = record { public_id = m.public_id; score = of_int m.score; rank = wrap32 m.rank }

unfoldable pub new_member_rank_response_list : List Member → List RankResponse
new_member_rank_response_list = map rank_response

module _ {W : Type 0} (app : App W) where
  -- `app.AddError(); return f(err)`
  unfoldable pub report :
      {A : Type 0} → (ServiceError → ApiError) → M W ServiceError A → M W ApiError A
  report f m = handle m (λ e w. (err (f e), app.add_error w)) pure

  -- `app.AddError(); return nil, status.Errorf(codes.InvalidArgument, msg)`
  abbrev pub refuse : {A : Type 0} → Text → M W ApiError A
  refuse msg w = (err (status invalid_argument msg), app.add_error w)

  unfoldable pub check_page_size : {A : Type 0} → ℤ → M W ApiError A → M W ApiError A
  check_page_size page_size next =
      if ltb_ℤ app.max_returned_members page_size
      then fail (
          status invalid_argument (
            codes "Max pageSize allowed: "
            ++ (format_int app.max_returned_members
                ++ (codes ". pageSize requested: " ++ format_int page_size))))
      else next
