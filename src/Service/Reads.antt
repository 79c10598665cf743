-- ===== src/Service/Reads.antt =====
-- leaderboard/service: healthcheck.go, get_member.go, get_members.go and get_rank.go.
pub mod Sorted
pub mod Served
use go_leaderboard.Base.{Bool, true, false, if◌then◌else◌, List, [], ◌∷◌, Option, none, some}
use go_leaderboard.Base.Int.{ℤ, pos, ltb_ℤ}
use go_leaderboard.Base.Effect.{M, pure, fail, crash, handle, wrap_err, ◌>>=◌, ◌>>◌}
use go_leaderboard.Base.Bytes.{Text, codes}
use go_leaderboard.Go.Word.{◌+w◌}
use go_leaderboard.Go.Float.{to_int}
use go_leaderboard.Go.Time.{Time, zero_time, at, unix}
use go_leaderboard.Database.Errors as Db
use go_leaderboard.Database.Errors.{DbError}
use go_leaderboard.Database.Defs.{DbMember}
use go_leaderboard.Service.Errors.{ServiceError, member_not_found}
use go_leaderboard.Service.Defs.{Service, Member}
use go_leaderboard.Service.Pages.{failed}

-- The time to expire in seconds, 0 for the zero time.
abbrev ttl_seconds : Time → ℤ
ttl_seconds zero_time = pos 0
ttl_seconds (at sec nsec) = unix (at sec nsec)

unfoldable pub member_of : DbMember → Member
unfolding unix
member_of d = record {
  public_id = d.member;
  score = to_int d.score;
  rank = d.rank +w pos 1;
  previous_rank = pos 0;
  expire_at = ttl_seconds d.ttl;
}

-- The loop of GetMembers, which skips the nil pointers.
unfoldable pub found_members : List (Option DbMember) → List Member
found_members [] = []
found_members (none ∷ ds) = found_members ds
found_members (some d ∷ ds) = member_of d ∷ found_members ds

-- sort.SliceStable by rank.
unfoldable pub insert_by_rank : Member → List Member → List Member
insert_by_rank m [] = m ∷ []
insert_by_rank m (n ∷ ns) =
    let rest = insert_by_rank m ns in if ltb_ℤ n.rank m.rank then n ∷ rest else m ∷ n ∷ ns

unfoldable pub sort_by_rank : List Member → List Member
unfolding insert_by_rank
sort_by_rank [] = []
sort_by_rank (m ∷ ms) = insert_by_rank m (sort_by_rank ms)

module _ {W : Type 0} (s : Service W) where
  unfoldable pub healthcheck : M W ServiceError (Unit {0})
  healthcheck = wrap_err (failed (codes "healthcheck")) s.database.healthcheck

  unfoldable pub get_member : Text → Text → Text → Bool → M W ServiceError Member
  get_member leaderboard member order include_ttl = do
    ds ←
        wrap_err (failed (codes "get member"))
          (s.database.get_members leaderboard order include_ttl (member ∷ []))
    elim ds [
      | [] ↦ crash
      | none ∷ _ ↦ fail (member_not_found leaderboard member)
      | some d ∷ _ ↦ pure (member_of d)
    ]

  unfoldable pub get_members : Text → List Text → Text → Bool → M W ServiceError (List Member)
  unfolding found_members sort_by_rank
  get_members leaderboard members order include_ttl = do
    ds ←
        wrap_err (failed (codes "get members"))
          (s.database.get_members leaderboard order include_ttl members)
    pure (sort_by_rank (found_members ds))

  unfoldable pub get_rank : Text → Text → Text → M W ServiceError ℤ
  get_rank leaderboard member order =
      handle (s.database.get_rank leaderboard member order)
        (λ e. elim e [
          | Db.member_not_found l m ↦ fail (member_not_found leaderboard member)
          | other ↦ fail (failed (codes "get rank") other)
        ])
        (λ rank. pure (rank +w pos 1))
