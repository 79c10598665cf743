-- ===== src/Tests/Periods.antt =====
-- Names of years, months and weeks.
use go_leaderboard.Base.{ℕ, ◌+◌, ◌≡◌, refl, arith}
use go_leaderboard.Base.Int.{pos}
use go_leaderboard.Base.Bytes.{Text, codes}
use go_leaderboard.Go.Strconv.{digits_value, parse_int}
use go_leaderboard.Base.Effect.{ok}
use go_leaderboard.Expiration.Pattern.{find, from_to, yearly, periodic}
use go_leaderboard.Expiration.Date.{day_unix, day_number, days_in_month, month_start}
use go_leaderboard.Expiration.Calendar.{year_days}
use go_leaderboard.Expiration.Periods.{until, year_name_lasts, month_name_lasts}
use go_leaderboard.Expiration.Weeks.{IsNear, week_name-IsNear}
use go_leaderboard.Expiration.Name.{get_expire_at, period_end}

abbrev year_name : Text
year_name = codes "lb_year2023"

abbrev december : Text
december = codes "lb_year2023month12"

abbrev first_week : Text
first_week = codes "lb_year2021week01"

two_years :
    get_expire_at (pos 0) year_name
    ≡ until (pos 0) year_name (day_number 2023 1 1 + year_days 2023 + year_days 2024)
unfolding find from_to yearly digits_value
two_years = year_name_lasts (pos 0) year_name 2023 (record {
  no_range = record { no_times = refl; no_dates = refl };
  year = codes "2023";
  matches = refl;
  year_value = refl;
})

month_name_lasts_example :
    get_expire_at (pos 0) december
    ≡ until (pos 0) december (month_start 2023 12 + days_in_month 2023 12 + days_in_month 2024 1)
unfolding find from_to yearly periodic digits_value
month_name_lasts_example =
    month_name_lasts (pos 0) december 2023 12 (codes "12")
      (record {
        no_range = record { no_times = refl; no_dates = refl };
        no_year = refl;
        year = codes "2023";
        matches = refl;
        year_value = refl;
      })
      refl refl (omega arith) (omega arith)

week_name-IsNear_example :
    (day : ℕ) × (get_expire_at (pos 0) first_week ≡ until (pos 0) first_week day)
    × IsNear 2021 1 day
unfolding find from_to yearly periodic digits_value parse_int
week_name-IsNear_example =
    week_name-IsNear (pos 0) first_week 2021 1 (codes "01")
      (record {
        no_range = record { no_times = refl; no_dates = refl };
        no_year = refl;
        year = codes "2021";
        matches = refl;
        year_value = refl;
      })
      refl (omega arith) (omega arith) (omega arith)

-- The week from May 23 to May 29, 2016 expires on June 5, 13 days after its Monday.
week_21_of_2016 :
    get_expire_at (pos 0) (codes "lb_year2016week21") ≡ ok (day_unix (pos (day_number 2016 6 5)))
unfolding get_expire_at period_end periodic find from_to yearly parse_int day_number day_unix
week_21_of_2016 = refl
