-- ===== src/Service/Pages.antt =====
-- leaderboard/service: indexes.go, total_members.go, total_pages.go, get_leaders.go,
-- get_members_by_range.go and get_top_percentage.go.
pub mod Percentage
pub mod Top
pub mod Quarters
pub mod Whole
pub mod Ceiling
pub mod Served
use go_leaderboard.Base.{
  ℕ, ◌≡◌, refl, Bool, true, false, ◌&&◌, ◌||◌, not, if◌then◌else◌, List, [], ◌∷◌,
}
use go_leaderboard.Base.Int.{ℤ, pos, negsuc, ltb_ℤ, leb_ℤ, quot}
use go_leaderboard.Base.Effect.{M, pure, fail, handle, wrap_err, ◌>>=◌, ◌>>◌}
use go_leaderboard.Base.Bytes.{Text, codes, eq}
use go_leaderboard.Go.Word.{◌+w◌, ◌-w◌, ◌*w◌}
use go_leaderboard.Go.Float.{of_int, to_int, div, mul, ceil, floor}
use go_leaderboard.Database.Errors as Db
use go_leaderboard.Database.Errors.{DbError}
use go_leaderboard.Database.Order.{asc, desc}
use go_leaderboard.Service.Errors.{ServiceError, general, page_out_of_range, percentage}
use go_leaderboard.Service.Defs.{Service, Member}
use go_leaderboard.Service.Members.{convert_members}

pub record Index : Type 0 where
  pub start : ℤ
  pub stop : ℤ

unfoldable pub get_indexes_by_page : ℤ → ℤ → Index
get_indexes_by_page page_size page =
    let start = (page -w pos 1) *w page_size in
    record { start = start; stop = start +w page_size -w pos 1 }

-- `if x < 0 { x = 0 }`
unfoldable pub at_least_zero : ℤ → ℤ
at_least_zero x = if ltb_ℤ x (pos 0) then pos 0 else x

-- calculateIndexesAroundMemberRank from its first `stop` on.
unfoldable pub window_from : ℤ → ℤ → ℤ → Index
window_from total start page_size =
    let stop = (start +w page_size) -w pos 1 in
    let last = total -w pos 1 in
    if leb_ℤ total stop
    then record { start = at_least_zero (last -w page_size +w pos 1); stop = last }
    else record { start = start; stop = stop }

-- calculateIndexesAroundMemberRank, once the total is known
unfoldable pub indexes_around : ℤ → ℤ → ℤ → Index
unfolding window_from at_least_zero
indexes_around total rank page_size =
    window_from total (at_least_zero (rank -w quot page_size 2)) page_size

-- int(math.Ceil(float64(total) / float64(pageSize)))
unfoldable pub pages : ℤ → ℤ → ℤ
pages total page_size = to_int (ceil (div (of_int total) (of_int page_size)))

-- int(math.Floor(float64(total) * (float64(amount) / 100.0)))
unfoldable pub share : ℤ → ℤ → ℤ
share total amount = to_int (floor (mul (of_int total) (div (of_int amount) (of_int (pos 100)))))

-- The number of members that GetTopPercentage asks for.
unfoldable pub members_to_return : ℤ → ℤ → ℤ → ℤ
unfolding share
members_to_return total amount max_members =
    let n = (let k = share total amount in if ltb_ℤ k (pos 1) then pos 1 else k) in
    if ltb_ℤ max_members n then max_members else n

abbrev label_leaders : Text
label_leaders = codes "get leaders"

-- NewGeneralError(label, err.Error())
abbrev pub failed : Text → DbError → ServiceError
failed label e = general label (Db.message e)

module _ {W : Type 0} (s : Service W) where
  unfoldable pub total_members : Text → M W ServiceError ℤ
  total_members leaderboard =
      wrap_err (failed (codes "total members")) (s.database.get_total_members leaderboard)

  unfoldable pub total_pages : Text → ℤ → M W ServiceError ℤ
  total_pages leaderboard page_size = do
    total ← wrap_err (failed (codes "total pages")) (s.database.get_total_members leaderboard)
    pure (pages total page_size)

  unfoldable pub ensure_valid_page : Text → ℤ → ℤ → M W ServiceError ℤ
  ensure_valid_page leaderboard page_size page = do
    total ← wrap_err (failed label_leaders) (s.database.get_total_members leaderboard)
    if ltb_ℤ page (pos 1)
        then pure (pos 1)
        else if ltb_ℤ (pages total page_size) page
        then fail (page_out_of_range page (pages total page_size))
        else pure page

  unfoldable pub get_leaders : Text → ℤ → ℤ → Text → M W ServiceError (List Member)
  unfolding ensure_valid_page
  get_leaders leaderboard page_size page order =
      handle (ensure_valid_page leaderboard page_size page)
        (λ e. elim e [ page_out_of_range p t ↦ pure [] | other ↦ fail other ])
        λ valid. do
          let index = get_indexes_by_page page_size valid
          ms ←
              wrap_err (failed label_leaders)
                (s.database.get_ordered_members leaderboard index.start index.stop order)
          pure (convert_members ms)

  unfoldable pub get_members_by_range : Text → ℤ → ℤ → Text → M W ServiceError (List Member)
  get_members_by_range leaderboard start stop order = do
    ms ←
        wrap_err (failed (codes "get members by range"))
          (s.database.get_ordered_members leaderboard start stop order)
    pure (convert_members ms)

  -- The page size is an argument that the code does not use.
  unfoldable pub get_top_percentage : Text → ℤ → ℤ → ℤ → Text → M W ServiceError (List Member)
  get_top_percentage leaderboard page_size amount max_members order =
      if ltb_ℤ amount (pos 1) || ltb_ℤ (pos 100) amount then fail (percentage amount) else do
        let order' = if not (eq order desc) && not (eq order asc) then desc else order
        let label = codes "get top percentage"
        total ← wrap_err (failed label) (s.database.get_total_members leaderboard)
        ms ← wrap_err (failed label) (
            s.database.get_ordered_members leaderboard (pos 0)
              (members_to_return total amount max_members -w pos 1) order')
        pure (convert_members ms)
