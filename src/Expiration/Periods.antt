-- ===== src/Expiration/Periods.antt =====
-- Names of years, months and weeks: until when they last, by the lengths of the calendar.
use go_leaderboard.Base.{
  ℕ, suc, ◌+◌, ◌/◌, ◌%◌, ◌≤◌, ◌≡◌, refl, ap, ◌∙◌, arith, if◌then◌else◌, none, some, length, [], ◌∷◌,
}
use go_leaderboard.Base.Int.{ℤ, pos, leb_ℤ}
use go_leaderboard.Base.Effect.{Outcome, ok, err}
use go_leaderboard.Base.Bytes.{Text}
use go_leaderboard.Expiration.Errors.{ExpirationError, leaderboard_expired}
use go_leaderboard.Expiration.Pattern.{
  find, from_to, yearly, periodic, digits10, date8, Period, month,
}
use go_leaderboard.Expiration.Date.{days_in_month, day_number, day_unix, month_start}
use go_leaderboard.Expiration.Calendar.{year_days, day_number-next_year, month_start-two}
use go_leaderboard.Expiration.Name.{
  value, get_expire_at, by_dates, by_year, by_period, period_end, parse_month, monthly_expiration,
  yearly_expiration, unless_expired,
}

-- The name is no range of times or dates.
pub record IsNoRange (name : Text) : Type 0 where
  pub no_times : find (from_to digits10) name ≡ none
  pub no_dates : find (from_to date8) name ≡ none

-- The name ends in a year alone.
pub record IsYearName (name : Text) (y : ℕ) : Type 0 where
  pub no_range : IsNoRange name
  pub year : Text
  pub matches : find yearly name ≡ some year
  pub year_value : value year ≡ y

-- The name ends in a year, a kind of period and a number.
pub record IsPeriodName (name : Text) (y : ℕ) (p : Period) (number : Text) : Type 0 where
  pub no_range : IsNoRange name
  pub no_year : find yearly name ≡ none
  pub year : Text
  pub matches : find periodic name ≡ some (year, p, number)
  pub year_value : value year ≡ y

-- The expiration at the start of a day, or the error if that is not after now.
abbrev pub until : ℤ → Text → ℕ → Outcome ExpirationError ℤ
until now name day =
    if leb_ℤ (day_unix (pos day)) now
    then err (leaderboard_expired name)
    else ok (day_unix (pos day))

-- The year and the next are over.
pub year_name_lasts :
    (now : ℤ) (name : Text) (y : ℕ)
    → IsYearName name y
    → get_expire_at now name ≡ until now name (day_number y 1 1 + year_days y + year_days (suc y))
unfolding get_expire_at by_dates by_year unless_expired yearly_expiration
year_name_lasts now name y u =
    let two : y + 2 ≡ suc (suc y) = omega arith in
    let h : day_number (y + 2) 1 1 ≡ day_number y 1 1 + year_days y + year_days (suc y) =
      ap (λ (k : ℕ). day_number k 1 1) two
      ∙ day_number-next_year (suc y)
      ∙ omega (arith, day_number-next_year y) in
    rw (u.no_range.no_times, get_expire_at)
      (rw (u.no_range.no_dates, by_dates) (rw (u.matches, by_year) (rw u.year_value (rw h refl))))

module _ (now : ℤ) (name : Text) (y : ℕ) (p : Period) (number : Text)
    (u : IsPeriodName name y p number) where
  pub by_period_end :
      (day : ℕ)
      → period_end u.year p number ≡ ok (day_unix (pos day))
      → get_expire_at now name ≡ until now name day
  unfolding get_expire_at by_dates by_year by_period unless_expired
  by_period_end day h =
      rw (u.no_range.no_times, get_expire_at)
        (rw (u.no_range.no_dates, by_dates)
          (rw (u.no_year, by_year) (rw (u.matches, by_period) (rw h refl))))

parse_month-two :
    (y n : Text) (m : ℕ) → length n ≡ 2 → value n ≡ m → 1 ≤ m → m ≤ 12 → parse_month y n ≡ ok m
unfolding parse_month
parse_month-two y [] m l v p q = absurd (omega arith)
parse_month-two y (a ∷ []) m l v p q = absurd (omega arith)
parse_month-two y (a ∷ b ∷ []) m l v p q = rw v (ground arith)
parse_month-two y (a ∷ b ∷ c ∷ n) m l v p q = absurd (omega arith)

-- A name that ends in a year and a month of two digits from 1 to 12, and in no range of times or
-- dates, expires at the start of the day when the days of that month and of the next, in December
-- of January of the next year, are over since the first of the month; if that is not after now, it
-- is the error of an expired leaderboard.
pub month_name_lasts :
    (now : ℤ) (name : Text) (y m : ℕ) (number : Text)
    → IsPeriodName name y month number
    → length number ≡ 2
    → value number ≡ m
    → 1 ≤ m
    → m ≤ 12
    → get_expire_at now name
      ≡ until now name
          (month_start y m + days_in_month y m + days_in_month (y + m / 12) (suc (m % 12)))
unfolding period_end monthly_expiration parse_month
month_name_lasts now name y m number u two v p q =
    by_period_end now name y month number u
      (month_start y m + days_in_month y m + days_in_month (y + m / 12) (suc (m % 12)))
      (rw (parse_month-two u.year number m two v p q)
        (rw u.year_value (rw (month_start-two y m p q) refl)))
