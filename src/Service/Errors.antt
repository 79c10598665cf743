-- ===== src/Service/Errors.antt =====
-- leaderboard/service/errors.go
use go_leaderboard.Base.{◌++◌}
use go_leaderboard.Base.Int.{ℤ}
use go_leaderboard.Base.Bytes.{Text, codes}
use go_leaderboard.Go.Strconv.{format_int}

pub data ServiceError : Type 0 where
  general : Text → Text → ServiceError
  member_not_found : Text → Text → ServiceError
  page_out_of_range : ℤ → ℤ → ServiceError
  leaderboard_expired : Text → ServiceError
  percentage : ℤ → ServiceError

-- err.Error()
unfoldable pub message : ServiceError → Text
message (general service msg) = codes "error on service " ++ (service ++ (codes ": " ++ msg))
message (member_not_found leaderboard member) =
    codes "Could not find data for member "
    ++ (member ++ (codes " in leaderboard " ++ (leaderboard ++ codes ".")))
message (page_out_of_range page total) =
    codes "page "
    ++ (format_int page ++ (codes " out of range (1, " ++ (format_int total ++ codes ")")))
message (leaderboard_expired leaderboard) = codes "Leaderboard expired error: " ++ leaderboard
message (percentage p) =
    codes "percentage error: "
    ++ (format_int p ++ codes ", it must be a valid integer between 1 and 100")
