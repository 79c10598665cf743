-- ===== src/Api/Remove.antt =====
-- api/leaderboard.go: RemoveMember, RemoveMembers and RemoveLeaderboard.
use go_leaderboard.Base.{if◌then◌else◌, []}
use go_leaderboard.Base.Effect.{M, err, pure, handle}
use go_leaderboard.Base.Bytes.{Text, codes, eq}
use go_leaderboard.Go.Strconv.{split}
use go_leaderboard.Service.Errors.{ServiceError}
use go_leaderboard.Service.Writes as Writes
use go_leaderboard.Api.Defs.{App, ApiError, service, is_not_found, report, refuse}

module _ {W : Type 0} (app : App W) where
  -- An error that says "not found" counts as success.
  unfoldable pub unless_missing : M W ServiceError (Unit {0}) → M W ApiError (Unit {0})
  unfolding is_not_found
  unless_missing m =
      handle m (λ e. if is_not_found e then pure tt else (λ w. (err (service e), app.add_error w)))
        pure

  unfoldable pub remove_member : Text → Text → M W ApiError (Unit {0})
  unfolding unless_missing
  remove_member leaderboard member =
      unless_missing (Writes.remove_member app.leaderboards leaderboard member)

  unfoldable pub remove_members : Text → Text → M W ApiError (Unit {0})
  unfolding unless_missing
  remove_members leaderboard ids =
      if eq ids []
      then refuse app (codes "Member IDs are required using the 'ids' querystring parameter")
      else unless_missing (Writes.remove_members app.leaderboards leaderboard (split ids))

  unfoldable pub remove_leaderboard : Text → M W ApiError (Unit {0})
  unfolding report
  remove_leaderboard leaderboard =
      report app service (Writes.remove_leaderboard app.leaderboards leaderboard)
