-- ===== src/Service/Writes.antt =====
-- leaderboard/service: set_member_score.go, set_members_score.go, increment_member_score.go,
-- remove_leaderboard.go, remove_member.go and remove_members.go. The members that a call changes
-- in place are part of its result.
pub mod Placed
pub mod Served
pub mod Removed
pub mod Timed
pub mod Lasting
pub mod Incremented
pub mod Bulk
use go_leaderboard.Base.{◌++◌, Bool, true, false, if◌then◌else◌, List, [], ◌∷◌, Option, none, some}
use go_leaderboard.Base.Int.{ℤ, pos}
use go_leaderboard.Base.Effect.{M, pure, fail, crash, handle, wrap_err, ◌>>=◌, ◌>>◌}
use go_leaderboard.Base.Bytes.{Text, codes, eq}
use go_leaderboard.Go.Float.{of_int}
use go_leaderboard.Go.Strconv.{ParseError, syntax, range}
use go_leaderboard.Database.Errors as Db
use go_leaderboard.Database.Errors.{DbError}
use go_leaderboard.Database.Order.{desc}
use go_leaderboard.Expiration.Errors as Exp
use go_leaderboard.Service.Errors.{ServiceError, general, leaderboard_expired}
use go_leaderboard.Service.Defs.{Service, Member}
use go_leaderboard.Service.Members.{
  Inner, database, expiration, strconv, set_members_previous_rank, persist_members,
  set_members_values, persist_leaderboard_expiration_time, persist_members_ttl,
}
use go_leaderboard.Service.Pages.{failed}

abbrev reason : ParseError → Text
reason syntax = codes "invalid syntax"
reason range = codes "value out of range"

-- err.Error()
unfoldable pub inner_message : Inner → Text
inner_message (database e) = Db.message e
inner_message (expiration e) = Exp.message e
inner_message (strconv e s) =
    codes "strconv.ParseInt: parsing \"" ++ (s ++ (codes "\": " ++ reason e))

abbrev failed_inner : Text → Inner → ServiceError
failed_inner label e = general label (inner_message e)

-- The error of the expiration of a name: an expired one has an error of its own.
abbrev expiration_failed : Text → Text → Inner → ServiceError
expiration_failed label leaderboard (expiration (Exp.leaderboard_expired l)) =
    leaderboard_expired leaderboard
expiration_failed label leaderboard e = failed_inner label e

abbrev pub new_member : Text → ℤ → Member
new_member member score = record {
  public_id = member;
  score = score;
  rank = pos 0;
  previous_rank = pos 0;
  expire_at = pos 0;
}

abbrev single : {W : Type 0} → List Member → M W ServiceError Member
single [] = crash
single (m ∷ ms) = pure m

module _ {W : Type 0} (s : Service W) where
  unfoldable pub store_ttl : Text → Text → List Member → Text → M W ServiceError (List Member)
  store_ttl label leaderboard members score_ttl =
      if eq score_ttl []
      then pure members
      else wrap_err (failed_inner label) (persist_members_ttl s leaderboard members score_ttl)

  -- What follows the write of the scores in all three operations, with the operation's label.
  unfoldable pub after_scores : Text → Text → List Member → Text → M W ServiceError (List Member)
  unfolding store_ttl
  after_scores label leaderboard members score_ttl = do
    ms ← wrap_err (failed label) (set_members_values s leaderboard members desc)
    wrap_err (expiration_failed label leaderboard)
        (persist_leaderboard_expiration_time s leaderboard)
    store_ttl label leaderboard ms score_ttl

  unfoldable pub previous_ranks : Text → Text → List Member → Bool → M W ServiceError (List Member)
  previous_ranks label leaderboard members prev_rank =
      if prev_rank
      then wrap_err (failed label) (set_members_previous_rank s leaderboard members desc)
      else pure members

  unfoldable pub write_scores :
      Text → Text → List Member → Bool → Text → M W ServiceError (List Member)
  unfolding previous_ranks after_scores
  write_scores label leaderboard members prev_rank score_ttl = do
    ms ← previous_ranks label leaderboard members prev_rank
    wrap_err (failed label) (persist_members s leaderboard ms)
    after_scores label leaderboard ms score_ttl

  unfoldable pub set_member_score : Text → Text → ℤ → Bool → Text → M W ServiceError Member
  unfolding write_scores
  set_member_score leaderboard member score prev_rank score_ttl = do
    ms ←
        write_scores (codes "set member score") leaderboard (new_member member score ∷ []) prev_rank
          score_ttl
    single ms

  unfoldable pub set_members_score :
      Text → List Member → Bool → Text → M W ServiceError (List Member)
  unfolding write_scores
  set_members_score leaderboard members prev_rank score_ttl =
      write_scores (codes "set members score") leaderboard members prev_rank score_ttl

  unfoldable pub increment_member_score : Text → Text → ℤ → Text → M W ServiceError Member
  unfolding after_scores
  increment_member_score leaderboard member increment score_ttl = do
    let label = codes "increment member score"
    wrap_err (failed label)
        (s.database.increment_member_score leaderboard member (of_int increment))
    ms ← after_scores label leaderboard (new_member member increment ∷ []) score_ttl
    single ms

  unfoldable pub remove_leaderboard : Text → M W ServiceError (Unit {0})
  remove_leaderboard leaderboard =
      wrap_err (failed (codes "remove leaderboard")) (s.database.remove_leaderboard leaderboard)

  unfoldable pub remove_member : Text → Text → M W ServiceError (Unit {0})
  remove_member leaderboard member =
      wrap_err (failed (codes "remove member"))
        (s.database.remove_members leaderboard (member ∷ []))

  unfoldable pub remove_members : Text → List Text → M W ServiceError (Unit {0})
  remove_members leaderboard members =
      wrap_err (failed (codes "remove members")) (s.database.remove_members leaderboard members)
