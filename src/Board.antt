-- ===== src/Board.antt =====
-- What the leaderboard service promises, apart from ranks and expirations: a map from leaderboards
-- and members to whole scores, and the operations of leaderboard/service on it.
pub mod Lookups
pub mod Steps
pub mod Refines
use mathlib.Core.Option
use go_leaderboard.Base.{
  ℕ, ◌+◌, length, ◌<◌, ◌≡◌, ◌&&◌, Bool, true, false, if◌then◌else◌, Option, none, some, List, [],
  ◌∷◌,
}
use go_leaderboard.Base.Int.{ℤ, pos, ◌+ℤ◌}
use go_leaderboard.Base.Effect.{M, Outcome, ok, pure, fail, handle, ◌>>=◌, ◌>>◌}
use go_leaderboard.Base.Bytes.{Text, codes, eq}
use go_leaderboard.Go.Float.{magnitude}
use go_leaderboard.Redis.Removes.{has}
use go_leaderboard.Expiration.Name.{get_expire_at, no_expiration}
use go_leaderboard.Service.Errors.{ServiceError}
use go_leaderboard.Service.Defs.{Service, Member}
use go_leaderboard.Service.Reads.{get_member}
use go_leaderboard.Service.Writes.{
  set_member_score, set_members_score, increment_member_score, remove_members, remove_member,
  remove_leaderboard,
}

abbrev pub Board : Type 0
Board = Text → Text → Option ℤ

pub data Command : Type 0 where
  set_score : Text → Text → ℤ → Bool → Command
  set_scores : Text → List Member → Bool → Command
  increment : Text → Text → ℤ → Command
  remove : Text → List Text → Command
  remove_all : Text → Command
  read : Text → Text → Command

-- The score of a member, 0 for none.
abbrev pub score_or_zero : Option ℤ → ℤ
score_or_zero none = pos 0
score_or_zero (some z) = z

-- The last score that a list gives to a member, or else the old one.
abbrev pub last_score : Text → List Member → Option ℤ → Option ℤ
last_score x [] old = old
last_score x (m ∷ ms) old = last_score x ms (if eq m.public_id x then some m.score else old)

-- The board behind a command.
abbrev pub apply : Command → Board → Board
apply (set_score lb m s prev) b l x = if eq lb l && eq m x then some s else b l x
apply (set_scores lb ms prev) b l x = if eq lb l then last_score x ms (b l x) else b l x
apply (increment lb m i) b l x =
    if eq lb l && eq m x then some (score_or_zero (b lb m) +ℤ i) else b l x
apply (remove lb ms) b l x = if eq lb l && has x ms then none else b l x
apply (remove_all lb) b l x = if eq lb l then none else b l x
apply (read lb m) b l x = b l x

-- The score that a command answers with, if any.
abbrev pub reply : Command → Board → Option ℤ
reply (set_score lb m s prev) b = some s
reply (set_scores lb ms prev) b = none
reply (increment lb m i) b = some (score_or_zero (b lb m) +ℤ i)
reply (remove lb ms) b = none
reply (remove_all lb) b = none
reply (read lb m) b = b lb m

unfoldable pub replay : List Command → Board → Board
replay [] b = b
replay (c ∷ cs) b = replay cs (apply c b)

unfoldable pub replies : List Command → Board → List (Option ℤ)
replies [] b = []
replies (c ∷ cs) b = reply c b ∷ replies cs (apply c b)

abbrev pub IsSmall : ℤ → Type 0
IsSmall z = magnitude z < 9007199254740992

abbrev pub IsSmallScore : Option ℤ → Type 0
IsSmallScore none = Unit
IsSmallScore (some z) = IsSmall z

abbrev pub IsLasting : Text → Type 0
IsLasting lb = (t : ℤ) → get_expire_at t lb ≡ ok no_expiration

-- Where the service keeps its promise: names that never expire, scores that a float64 holds, and
-- lists that are not empty, since redis refuses a command without members.
abbrev pub Fits : Command → Board → Type 0
Fits (set_score lb m s prev) b = IsSmall s × IsLasting lb
Fits (set_scores lb ms prev) b = (0 < length ms) × IsLasting lb
Fits (increment lb m i) b =
    IsSmall (score_or_zero (b lb m))
    × IsSmall i
    × IsSmall (score_or_zero (b lb m) +ℤ i)
    × IsLasting lb
Fits (remove lb ms) b = 0 < length ms
Fits (remove_all lb) b = Unit
Fits (read lb m) b = IsSmallScore (b lb m)

-- How many members a command may add.
abbrev pub cost : Command → ℕ
cost (set_scores lb ms prev) = length ms
cost _ = 1

abbrev pub costs : List Command → ℕ
costs [] = 0
costs (c ∷ cs) = cost c + costs cs

abbrev pub FitsAll : List Command → Board → Type 0
FitsAll [] b = Unit
FitsAll (c ∷ cs) b = Fits c b × FitsAll cs (apply c b)

module _ {W : Type 0} (s : Service W) where
  -- The call that a command stands for; a member that is not found is no error here.
  unfoldable pub execute : Command → M W ServiceError (Option ℤ)
  execute (set_score lb m score prev) = do
    r ← set_member_score s lb m score prev []
    pure (some r.score)
  execute (set_scores lb ms prev) = do set_members_score s lb ms prev []; pure none
  execute (increment lb m i) = do r ← increment_member_score s lb m i []; pure (some r.score)
  execute (remove lb ms) = do remove_members s lb ms; pure none
  execute (remove_all lb) = do remove_leaderboard s lb; pure none
  execute (read lb m) =
      handle (get_member s lb m (codes "desc") false) (λ _. pure none) (λ r. pure (some r.score))

  unfoldable pub run : List Command → M W ServiceError (List (Option ℤ))
  unfolding execute
  run [] = pure []
  run (c ∷ cs) = do r ← execute c; rs ← run cs; pure (r ∷ rs)
