-- ===== src/Database/Ranks.antt =====
-- leaderboard/database/redis.go: reading ranks and members.
use go_leaderboard.Base.{Bool, true, false, ◌||◌, if◌then◌else◌, List, [], ◌∷◌, Option, none, some}
use go_leaderboard.Base.Int.{ℤ, pos}
use go_leaderboard.Base.Effect.{M, pure, fail, handle, wrap_err, ◌>>=◌}
use go_leaderboard.Base.Bytes.{Text, eq}
use go_leaderboard.Go.Word.{◌+w◌}
use go_leaderboard.Go.Float.{to_int}
use go_leaderboard.Go.Time.{Time, zero_time, at}
use go_leaderboard.Redis.Defs.{Client, RedisMember}
use go_leaderboard.Redis.Errors.{RedisError}
use go_leaderboard.Redis.Errors
use go_leaderboard.Database.Errors.{DbError, general, invalid_order, member_not_found, message}
use go_leaderboard.Database.Defs.{DbMember}
use go_leaderboard.Database.Order.{asc, desc, ttl_key, not_handled}

abbrev rank_error : Text → Text → RedisError → DbError
rank_error leaderboard member (Errors.member_not_found k m) = member_not_found leaderboard member
rank_error leaderboard member e = not_handled e

-- The loop that numbers the members from `start`.
unfoldable pub numbered : ℤ → List RedisMember → List DbMember
numbered start [] = []
numbered start (m ∷ ms) =
    record { member = m.member; score = m.score; rank = start; ttl = zero_time }
    ∷ numbered (start +w pos 1) ms

module _ {W : Type 0} (c : Client W) where
  unfoldable pub get_total_members : Text → M W DbError ℤ
  get_total_members leaderboard =
      handle (c.zcard leaderboard)
        (λ e. elim e [ Errors.key_not_found k ↦ pure (pos 0) | other ↦ fail (not_handled other) ])
        (λ total. pure (pos total))

  unfoldable pub get_rank : Text → Text → Text → M W DbError ℤ
  get_rank leaderboard member order =
      if eq order asc
      then wrap_err (rank_error leaderboard member) (c.zrank leaderboard member)
      else if eq order desc
      then wrap_err (rank_error leaderboard member) (c.zrevrank leaderboard member)
      else fail (invalid_order order)

  unfoldable pub get_ordered_members : Text → ℤ → ℤ → Text → M W DbError (List DbMember)
  unfolding numbered
  get_ordered_members leaderboard start stop order =
      if eq order asc
      then (do
        ms ← wrap_err not_handled (c.zrange leaderboard start stop)
        pure (numbered start ms))
      else if eq order desc
      then (do
        ms ← wrap_err not_handled (c.zrevrange leaderboard start stop)
        pure (numbered start ms))
      else fail (invalid_order order)

  unfoldable pub get_member_ids_with_score_inside_range :
      Text → Text → Text → ℤ → ℤ → M W DbError (List Text)
  get_member_ids_with_score_inside_range leaderboard min max offset count =
      wrap_err not_handled (c.zrevrange_by_score leaderboard min max offset count)

  unfoldable pub get_member_ttl : Text → Text → M W DbError Time
  unfolding ttl_key
  get_member_ttl leaderboard member =
      handle (c.zscore (ttl_key leaderboard) member)
        (λ e. fail (rank_error (ttl_key leaderboard) member e)) (λ ttl. pure (at (to_int ttl) 0))

  -- The rank in the order that `get_members` has checked.
  unfoldable pub rank_in : Text → Text → Text → M W DbError ℤ
  rank_in order leaderboard member =
      wrap_err not_handled
        (if eq order asc then c.zrank leaderboard member else c.zrevrank leaderboard member)

  -- The time to expire, or the zero time if the member has none.
  unfoldable pub ttl_or_zero : Bool → Text → Text → M W DbError Time
  unfolding get_member_ttl
  ttl_or_zero false leaderboard member = pure zero_time
  ttl_or_zero true leaderboard member =
      handle (get_member_ttl leaderboard member)
        (λ e. elim e [
          | member_not_found l m ↦ pure zero_time
          | other ↦ fail (general (message other))
        ])
        pure

  -- One round of the loop of `get_members`.
  unfoldable pub get_one : Text → Text → Bool → Text → M W DbError (Option DbMember)
  unfolding rank_in ttl_or_zero
  get_one leaderboard order include_ttl member =
      handle (c.zscore leaderboard member)
        (λ e. elim e [ Errors.member_not_found k m ↦ pure none | other ↦ fail (not_handled other) ])
        λ score. do
          rank ← rank_in order leaderboard member
          ttl ← ttl_or_zero include_ttl leaderboard member
          pure (some (record { member = member; score = score; rank = rank; ttl = ttl }))

  unfoldable pub get_each : Text → Text → Bool → List Text → M W DbError (List (Option DbMember))
  unfolding get_one
  get_each leaderboard order include_ttl [] = pure []
  get_each leaderboard order include_ttl (member ∷ members) = do
    m ← get_one leaderboard order include_ttl member
    ms ← get_each leaderboard order include_ttl members
    pure (m ∷ ms)

  unfoldable pub get_members : Text → Text → Bool → List Text → M W DbError (List (Option DbMember))
  unfolding get_each
  get_members leaderboard order include_ttl members =
      if eq order asc || eq order desc
      then get_each leaderboard order include_ttl members
      else fail (invalid_order order)
