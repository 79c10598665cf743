-- ===== src/Database/Order.antt =====
-- The order arguments "asc" and "desc", compared as strings all over the code, and the keys.
use go_leaderboard.Base.{◌++◌}
use go_leaderboard.Base.Bytes.{Text, codes}
use go_leaderboard.Redis.Errors.{RedisError, message}
use go_leaderboard.Database.Errors.{DbError, general}

abbrev pub asc : Text
asc = codes "asc"

abbrev pub desc : Text
desc = codes "desc"

-- The key of the sorted set with the members' times to expire.
abbrev pub ttl_suffix : Text
ttl_suffix = codes ":ttl"

unfoldable pub ttl_key : Text → Text
ttl_key leaderboard = leaderboard ++ ttl_suffix

abbrev pub expiration_set : Text
expiration_set = codes "expiration-sets"

-- NewGeneralError(err.Error())
abbrev pub not_handled : RedisError → DbError
not_handled e = general (message e)
