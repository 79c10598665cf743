-- ===== src/Expiration/Date.antt =====
-- The proleptic Gregorian calendar of the package time, as far as the code uses it: days since
-- January 1 of year 0, time.Parse of digits, AddDate from the first of a month, and ISOWeek.
use go_leaderboard.Base.{
  ℕ, zero, suc, ◌+◌, ◌-◌, ◌*◌, ◌/◌, ◌%◌, ltb, leb, ◌==◌, Bool, ◌&&◌, ◌||◌, not, if◌then◌else◌,
}
use go_leaderboard.Base.Int.{ℤ, pos, ◌-ℤ◌, ◌*ℤ◌}

abbrev pub is_leap : ℕ → Bool
is_leap y = (y % 4 == 0) && (not (y % 100 == 0) || (y % 400 == 0))

-- Days before January 1 of year y; year 0 is a leap year.
unfoldable pub days_before_year : ℕ → ℕ
days_before_year zero = 0
days_before_year (suc y) = 365 * suc y + (y / 4 + 1) - (y / 100 + 1) + (y / 400 + 1)

-- Days of the year before month m, from 1.
unfoldable pub days_before_month : Bool → ℕ → ℕ
days_before_month leap m =
    let extra = if leap then (if ltb 2 m then 1 else 0) else 0 in
    extra
    + (if leb m 1
        then 0
        else if m == 2
        then 31
        else if m == 3
        then 59
        else if m == 4
        then 90
        else if m == 5
        then 120
        else if m == 6
        then 151
        else if m == 7
        then 181
        else if m == 8
        then 212
        else if m == 9
        then 243
        else if m == 10
        then 273
        else if m == 11
        then 304
        else if m == 12
        then 334
        else 365)

unfoldable pub days_in_month : ℕ → ℕ → ℕ
unfolding days_before_month
days_in_month y m = days_before_month (is_leap y) (m + 1) - days_before_month (is_leap y) m

-- The day number of the given year, month and day, the month and day from 1.
unfoldable pub day_number : ℕ → ℕ → ℕ → ℕ
unfolding days_before_year days_before_month
day_number y m d = days_before_year y + days_before_month (is_leap y) m + (d - 1)

-- The day number of January 1, 1970.
abbrev pub epoch : ℕ
epoch = 719528

-- Seconds since 1970 at the start of a day.
unfoldable pub day_unix : ℤ → ℤ
unfolding ◌-ℤ◌ ◌*ℤ◌
day_unix day = (day -ℤ pos epoch) *ℤ pos 86400

-- Date(y, m + k, 1), which carries months beyond December into the year.
unfoldable pub month_start : ℕ → ℕ → ℕ
unfolding day_number
month_start y m = day_number (y + (m - 1) / 12) (((m - 1) % 12) + 1) 1

-- The weekday of a day number, Monday 0; day 0 is a Saturday.
abbrev pub weekday : ℕ → ℕ
weekday day = (day + 5) % 7

abbrev has_53_weeks : ℕ → Bool
has_53_weeks y = let w = weekday (day_number y 1 1) in (w == 3) || ((w == 2) && is_leap y)

-- ISOWeek of January 1 of year y > 0: the first week, or the last one of the year before.
unfoldable pub iso_week_of_first : ℕ → ℕ × ℕ
unfolding day_number
iso_week_of_first y =
    if leb (weekday (day_number y 1 1)) 3
    then (y, 1)
    else (y - 1, if has_53_weeks (y - 1) then 53 else 52)
