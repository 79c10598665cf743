-- ===== src/Expiration/Errors.antt =====
-- leaderboard/expiration/errors.go; an error of time.Parse is known by its message.
use go_leaderboard.Base.{◌++◌}
use go_leaderboard.Base.Int.{ℤ}
use go_leaderboard.Base.Bytes.{Text, codes}
use go_leaderboard.Go.Strconv.{format_int}

pub data ExpirationError : Type 0 where
  invalid_duration : Text → ℤ → ExpirationError
  leaderboard_expired : Text → ExpirationError
  parse_error : Text → ExpirationError

-- err.Error()
unfoldable pub message : ExpirationError → Text
message (invalid_duration leaderboard seconds) =
    codes "Leaderboard " ++ (leaderboard ++ (codes " has invalid duration " ++ format_int seconds))
message (leaderboard_expired leaderboard) =
    codes "Leaderboard " ++ (leaderboard ++ codes " has already expired")
message (parse_error msg) = msg
