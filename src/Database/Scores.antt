-- ===== src/Database/Scores.antt =====
-- leaderboard/database/redis.go: writing scores and expirations.
use go_leaderboard.Base.{List, map}
use go_leaderboard.Base.Int.{ℤ}
use go_leaderboard.Base.Effect.{M, pure, fail, handle, wrap_err, ◌>>◌}
use go_leaderboard.Base.Bytes.{Text}
use go_leaderboard.Go.Float.{Float64, of_int}
use go_leaderboard.Go.Time.{Time, unix}
use go_leaderboard.Redis.Defs.{Client, RedisMember}
use go_leaderboard.Redis.Errors
use go_leaderboard.Database.Errors.{DbError, ttl_not_found}
use go_leaderboard.Database.Defs.{DbMember}
use go_leaderboard.Database.Order.{ttl_key, expiration_set, not_handled}

unfoldable pub with_score : DbMember → RedisMember
with_score m = record { member = m.member; score = m.score }

unfoldable pub with_ttl : DbMember → RedisMember
with_ttl m = record { member = m.member; score = of_int (unix m.ttl) }

module _ {W : Type 0} (c : Client W) where
  unfoldable pub get_leaderboard_expiration : Text → M W DbError ℤ
  get_leaderboard_expiration leaderboard =
      handle (c.ttl leaderboard)
        (λ e. elim e [
          | Errors.ttl_not_found k ↦ fail (ttl_not_found leaderboard)
          | other ↦ fail (not_handled other)
        ])
        pure

  unfoldable pub healthcheck : M W DbError (Unit {0})
  healthcheck = do wrap_err not_handled c.ping; pure tt

  unfoldable pub increment_member_score : Text → Text → Float64 → M W DbError (Unit {0})
  increment_member_score leaderboard member increment =
      wrap_err not_handled (c.zincrby leaderboard member increment)

  unfoldable pub remove_leaderboard : Text → M W DbError (Unit {0})
  remove_leaderboard leaderboard = wrap_err not_handled (c.del leaderboard)

  unfoldable pub remove_members : Text → List Text → M W DbError (Unit {0})
  remove_members leaderboard members = wrap_err not_handled (c.zrem leaderboard members)

  unfoldable pub set_leaderboard_expiration : Text → Time → M W DbError (Unit {0})
  set_leaderboard_expiration leaderboard time = wrap_err not_handled (c.expire_at leaderboard time)

  unfoldable pub set_members : Text → List DbMember → M W DbError (Unit {0})
  unfolding with_score
  set_members leaderboard members =
      wrap_err not_handled (c.zadd leaderboard (map with_score members))

  unfoldable pub set_members_ttl : Text → List DbMember → M W DbError (Unit {0})
  unfolding with_ttl ttl_key
  set_members_ttl leaderboard members = do
    wrap_err not_handled (c.zadd (ttl_key leaderboard) (map with_ttl members))
    wrap_err not_handled (c.sadd expiration_set (ttl_key leaderboard))
