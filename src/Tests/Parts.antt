-- ===== src/Tests/Parts.antt =====
-- The parts of Go, the calendar and the patterns, run.
use go_leaderboard.Base.{◌≡◌, refl, some, [], ◌∷◌}
use go_leaderboard.Base.Int.{pos, negsuc}
use go_leaderboard.Base.Effect.{ok, err}
use go_leaderboard.Base.Bytes.{codes}
use go_leaderboard.Go.Float.{of_int, to_int, floor, mul, div}
use go_leaderboard.Go.Format.{sprintf}
use go_leaderboard.Go.Strconv.{format_int, parse_int, split, range, digits_value}
use go_leaderboard.Expiration.Errors.{parse_error}
use go_leaderboard.Expiration.Date.{day_number, day_unix, iso_week_of_first, days_in_month}
use go_leaderboard.Expiration.Pattern.{find, from_to, yearly, periodic, month}
use go_leaderboard.Expiration.Name.{get_expire_at, period_end, parse_date}
use go_leaderboard.Service.Pages.{share}

format_int_example : format_int (negsuc 1204) ≡ codes "-1205"
unfolding format_int
format_int_example = refl

parse_int_example : parse_int 2147483648 (codes "2147483648") ≡ (pos 2147483647, some range)
unfolding parse_int
parse_int_example = refl

split_example : split (codes "a,,bc") ≡ codes "a" ∷ [] ∷ codes "bc" ∷ []
unfolding split
split_example = refl

-- 29% of 100 is 28 in this arithmetic.
share_29 : share (pos 100) (pos 29) ≡ pos 28
unfolding share to_int floor mul of_int div
share_29 = refl

epoch_is : day_number 1970 1 1 ≡ 719528
unfolding day_number
epoch_is = refl

day_2016 : day_unix (pos (day_number 2016 3 1)) ≡ pos 1456790400
unfolding day_unix day_number
day_2016 = refl

iso_2016 : iso_week_of_first 2016 ≡ (2015, 53)
unfolding iso_week_of_first
iso_2016 = refl

iso_2022 : iso_week_of_first 2022 ≡ (2021, 52)
unfolding iso_week_of_first
iso_2022 = refl

find_month : find periodic (codes "lb_year2016month03") ≡ some (codes "2016", month, codes "03")
unfolding find periodic
find_month = refl

get_expire_at_month : get_expire_at (pos 0) (codes "lb_year2016month03") ≡ ok (pos 1462060800)
unfolding get_expire_at period_end periodic find from_to yearly digits_value
get_expire_at_month = refl

get_expire_at_week : get_expire_at (pos 0) (codes "lb_year2016week01") ≡ ok (pos 1452988800)
unfolding get_expire_at period_end periodic find from_to yearly parse_int
get_expire_at_week = refl

get_expire_at_day :
    get_expire_at (pos 0) (codes "lb_from20201010to20201039")
    ≡ err (parse_error (codes "parsing time \"20201039\": day out of range"))
unfolding get_expire_at from_to find parse_date days_in_month
get_expire_at_day = refl

-- A text with percent signs, as a format.
percent_formats :
    sprintf (codes "lb100%x50% off%5.2[1]d%%%*q%")
    ≡ codes "lb100%!x(MISSING)50%!o(MISSING)ff%!d(BADINDEX)%%!(BADWIDTH)%!q(MISSING)%!(NOVERB)"
unfolding sprintf
percent_formats = refl
