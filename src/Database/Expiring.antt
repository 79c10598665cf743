-- ===== src/Database/Expiring.antt =====
-- leaderboard/database/redis_expiration.go
use go_leaderboard.Base.{List, [], ◌∷◌, map}
use go_leaderboard.Base.Int.{ℤ, pos}
use go_leaderboard.Base.Effect.{M, pure, fail, handle, wrap_err, ◌>>=◌, ◌>>◌}
use go_leaderboard.Base.Bytes.{Text, codes, trim_suffix}
use go_leaderboard.Go.Time.{Time, unix}
use go_leaderboard.Go.Strconv.{format_int}
use go_leaderboard.Redis.Defs.{Client}
use go_leaderboard.Redis.Errors
use go_leaderboard.Database.Errors.{DbError, without_member_to_expire}
use go_leaderboard.Database.Order.{ttl_key, ttl_suffix, expiration_set, not_handled}

module _ {W : Type 0} (c : Client W) where
  unfoldable pub get_expiration_leaderboards : M W DbError (List Text)
  get_expiration_leaderboards = do
    keys ← wrap_err not_handled (c.smembers expiration_set)
    pure (map (λ k. trim_suffix k ttl_suffix) keys)

  unfoldable pub get_members_to_expire : Text → ℤ → Time → M W DbError (List Text)
  unfolding ttl_key
  get_members_to_expire leaderboard amount max_time =
      handle (c.exists (ttl_key leaderboard))
        (λ e. elim e [
          | Errors.key_not_found k ↦ fail (without_member_to_expire leaderboard)
          | other ↦ fail (not_handled other)
        ])
        λ _. wrap_err not_handled (
          c.zrange_by_score (ttl_key leaderboard) (codes "-inf") (format_int (unix max_time))
            (pos 0) amount)

  unfoldable pub remove_leaderboard_from_expire_list : Text → M W DbError (Unit {0})
  unfolding ttl_key
  remove_leaderboard_from_expire_list leaderboard =
      wrap_err not_handled (c.srem expiration_set (ttl_key leaderboard ∷ []))

  unfoldable pub expire_members : Text → List Text → M W DbError (Unit {0})
  unfolding ttl_key
  expire_members leaderboard members = do
    wrap_err not_handled (c.zrem leaderboard members)
    wrap_err not_handled (c.zrem (ttl_key leaderboard) members)
