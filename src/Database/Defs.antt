-- ===== src/Database/Defs.antt =====
-- leaderboard/database/database.go and expiration.go: the struct Member and the interfaces.
use go_leaderboard.Base.{List, Option, Bool}
use go_leaderboard.Base.Int.{ℤ}
use go_leaderboard.Base.Effect.{M}
use go_leaderboard.Base.Bytes.{Text}
use go_leaderboard.Go.Float.{Float64}
use go_leaderboard.Go.Time.{Time}
use go_leaderboard.Database.Errors.{DbError}

pub record DbMember : Type 0 where
  pub member : Text
  pub score : Float64
  pub rank : ℤ
  pub ttl : Time

-- A nil pointer among the members is `none`.
pub record Database (W : Type 0) : Type 0 where
  pub get_leaderboard_expiration : Text → M W DbError ℤ
  pub get_member_ids_with_score_inside_range : Text → Text → Text → ℤ → ℤ → M W DbError (List Text)
  pub get_members : Text → Text → Bool → List Text → M W DbError (List (Option DbMember))
  pub get_ordered_members : Text → ℤ → ℤ → Text → M W DbError (List DbMember)
  pub get_rank : Text → Text → Text → M W DbError ℤ
  pub get_total_members : Text → M W DbError ℤ
  pub healthcheck : M W DbError (Unit {0})
  pub increment_member_score : Text → Text → Float64 → M W DbError (Unit {0})
  pub remove_leaderboard : Text → M W DbError (Unit {0})
  pub remove_members : Text → List Text → M W DbError (Unit {0})
  pub set_leaderboard_expiration : Text → Time → M W DbError (Unit {0})
  pub set_members : Text → List DbMember → M W DbError (Unit {0})
  pub set_members_ttl : Text → List DbMember → M W DbError (Unit {0})

pub record Expiration (W : Type 0) : Type 0 where
  pub get_expiration_leaderboards : M W DbError (List Text)
  pub get_members_to_expire : Text → ℤ → Time → M W DbError (List Text)
  pub remove_leaderboard_from_expire_list : Text → M W DbError (Unit {0})
  pub expire_members : Text → List Text → M W DbError (Unit {0})
