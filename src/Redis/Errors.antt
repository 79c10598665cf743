-- ===== src/Redis/Errors.antt =====
-- leaderboard/database/redis/errors.go
use go_leaderboard.Base.{◌++◌, []}
use go_leaderboard.Base.Bytes.{Text, codes}

pub data RedisError : Type 0 where
  key_not_found : Text → RedisError
  ttl_not_found : Text → RedisError
  member_not_found : Text → Text → RedisError
  general : Text → RedisError

-- NewMemberNotFoundError drops the member that it is given.
unfoldable pub new_member_not_found : Text → Text → RedisError
new_member_not_found key member = member_not_found key []

-- err.Error()
unfoldable pub message : RedisError → Text
message (key_not_found key) = codes "redis: key " ++ (key ++ codes " not found")
message (ttl_not_found key) = codes "redis: ttl to key " ++ (key ++ codes " not found")
message (member_not_found key member) =
    codes "redis: key " ++ (key ++ (codes " not have member " ++ (member ++ codes " found")))
message (general msg) = codes "redis: error: " ++ msg
