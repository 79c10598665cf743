-- ===== src/Worker.antt =====
-- worker/expiration_worker.go: what one tick of the worker does. The worker sends on two channels;
-- what it sends is a list of events, in order.
pub mod Events
pub mod Served
pub mod Swept
pub mod Run
pub mod Setup
use go_leaderboard.Base.{ℕ, ◌≡◌, refl, Bool, true, false, List, [], ◌∷◌, ◌++◌, length}
use go_leaderboard.Base.Int.{ℤ, pos}
use go_leaderboard.Base.Effect.{M, Outcome, ok, err, panic, pure, fail, handle, ◌>>=◌, ◌>>◌}
use go_leaderboard.Base.Bytes.{Text}
use go_leaderboard.Go.Time.{Time}
use go_leaderboard.Database.Errors.{DbError, without_member_to_expire}
use go_leaderboard.Database.Defs.{Expiration}
use go_leaderboard.Service.Defs.{now}

pub record ExpirationResult : Type 0 where
  pub deleted_members : ℕ
  pub deleted_set : Bool
  pub set : Text

pub record Worker (W : Type 0) : Type 0 where
  pub database : Expiration W
  pub clock : W → Time × W
  pub expiration_limit_per_run : ℤ

pub data Event : Type 0 where
  results : List ExpirationResult → Event
  error : DbError → Event

-- `len(members) == 0`, or else the members go.
unfoldable pub expire_found :
    {W : Type 0} → Worker W → Text → List Text → M W DbError ExpirationResult
expire_found w leaderboard [] =
    pure (record { deleted_members = 0; deleted_set = false; set = leaderboard })
expire_found w leaderboard (m ∷ ms) = do
  w.database.expire_members leaderboard (m ∷ ms)
  pure (record { deleted_members = length (m ∷ ms); deleted_set = false; set = leaderboard })

-- What follows an error of GetMembersToExpire.
unfoldable pub expire_refused :
    {W : Type 0} → Worker W → Text → DbError → M W DbError ExpirationResult
expire_refused w leaderboard (without_member_to_expire l) = do
  w.database.remove_leaderboard_from_expire_list leaderboard
  pure (record { deleted_members = 0; deleted_set = true; set = leaderboard })
expire_refused w leaderboard e = fail e

module _ {W : Type 0} (w : Worker W) where
  unfoldable pub expire_members_from_leaderboard : Text → M W DbError ExpirationResult
  unfolding expire_found expire_refused
  expire_members_from_leaderboard leaderboard = do
    t ← now w.clock
    handle (w.database.get_members_to_expire leaderboard w.expiration_limit_per_run t)
        (expire_refused w leaderboard) (expire_found w leaderboard)

  -- The loop over the leaderboards, with the results so far.
  unfoldable pub expire_each : List ExpirationResult → List Text → W → List Event × W
  unfolding expire_members_from_leaderboard
  expire_each acc [] s = (results acc ∷ [], s)
  expire_each acc (l ∷ ls) s =
      let (outcome, s') = expire_members_from_leaderboard l s in
      let rest = λ (r : ExpirationResult). expire_each (acc ++ (r ∷ [])) ls s' in
      elim outcome [ ok r ↦ rest r | err e ↦ (error e ∷ [], s') | panic ↦ ([], s') ]

  -- An error of the first call is sent, and the loop then runs over no leaderboards.
  unfoldable pub expire_members : W → List Event × W
  unfolding expire_each
  expire_members s =
      let (outcome, s') = w.database.get_expiration_leaderboards s in
      elim outcome [
        | ok ls ↦ expire_each [] ls s'
        | err e ↦ (let (events, s'') = expire_each [] [] s' in (error e ∷ events, s''))
        | panic ↦ ([], s')
      ]
