-- ===== src/Service/Defs.antt =====
-- leaderboard/model/member.go, and what a Service holds and calls: its database, time.Now and the
-- package expiration.

use go_leaderboard.Base.Int.{ℤ}
use go_leaderboard.Base.Effect.{M, Outcome}
use go_leaderboard.Base.Bytes.{Text}
use go_leaderboard.Go.Time.{Time}
use go_leaderboard.Database.Defs.{Database}

pub record Member : Type 0 where
  pub public_id : Text
  pub score : ℤ
  pub rank : ℤ
  pub previous_rank : ℤ
  pub expire_at : ℤ

-- `clock` is time.Now().UTC().
pub record Service (W : Type 0) : Type 0 where
  pub database : Database W
  pub clock : W → Time × W

-- time.Now() as an action that cannot fail.
abbrev pub now : {W E : Type 0} → (W → Time × W) → M W E Time
now clock w = (Outcome.ok (clock w).0, (clock w).1)
