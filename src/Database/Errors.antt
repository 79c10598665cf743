-- ===== src/Database/Errors.antt =====
-- leaderboard/database/errors.go
use go_leaderboard.Base.{◌++◌}
use go_leaderboard.Base.Bytes.{Text, codes}

pub data DbError : Type 0 where
  general : Text → DbError
  invalid_order : Text → DbError
  member_not_found : Text → Text → DbError
  ttl_not_found : Text → DbError
  without_member_to_expire : Text → DbError

-- err.Error()
unfoldable pub message : DbError → Text
message (general msg) = codes "database error: " ++ msg
message (invalid_order order) = codes "invalid order: " ++ order
message (member_not_found leaderboard member) =
    codes "member " ++ (member ++ (codes " not found in leaderboard " ++ leaderboard))
message (ttl_not_found leaderboard) =
    codes "ttl to leaderboard " ++ (leaderboard ++ codes " not found")
message (without_member_to_expire leaderboard) =
    codes "leaderboard " ++ (leaderboard ++ codes " without member to expire")
