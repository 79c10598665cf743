-- ===== src/Expiration/Calendar.antt =====
-- The lengths of the years and months of the calendar.
use go_leaderboard.Base.{
  ℕ, zero, suc, ◌+◌, ◌-◌, ◌/◌, ◌%◌, ◌≤◌, ◌≡◌, ◌==◌, refl, sym, ap, ◌∙◌, arith, Bool, if◌then◌else◌,
  Bool-cases, inl, inr,
}
use go_leaderboard.Expiration.Date.{
  is_leap, days_before_year, days_before_month, days_in_month, day_number, month_start,
}

-- The days of a year.
abbrev pub year_days : ℕ → ℕ
year_days y = if is_leap y then 366 else 365

pub day_number-january : (y d : ℕ) → day_number y 1 (suc d) ≡ days_before_year y + d
unfolding day_number days_before_month
day_number-january y d = ground arith

next_year : (y : ℕ) → days_before_year (suc y) ≡ days_before_year y + year_days y
unfolding days_before_year
next_year zero = refl
next_year (suc y) = ground arith

-- January 1 of the next year is a year later.
pub day_number-next_year : (y : ℕ) → day_number (suc y) 1 1 ≡ day_number y 1 1 + year_days y
day_number-next_year y =
    day_number-january (suc y) 0 ∙ omega (arith, next_year y, day_number-january y 0)

-- A month of the year itself.
month_start-in_year :
    (y m : ℕ)
    → 1 ≤ m
    → m ≤ 12
    → month_start y m ≡ days_before_year y + days_before_month (is_leap y) m
unfolding month_start day_number
month_start-in_year y m p q =
    ap (λ (k : ℕ). day_number k (((m - 1) % 12) + 1) 1) (same_year y m p q)
    ∙ ap (λ (k : ℕ). day_number y k 1) (same_month m p q)
    ∙ omega arith
  where
    same_year : (y m : ℕ) → 1 ≤ m → m ≤ 12 → y + (m - 1) / 12 ≡ y
    same_year y m p q = omega arith

    same_month : (m : ℕ) → 1 ≤ m → m ≤ 12 → ((m - 1) % 12) + 1 ≡ m
    same_month m p q = omega arith

month_start-thirteen : (y : ℕ) → month_start y 13 ≡ days_before_year (suc y)
unfolding month_start
month_start-thirteen y =
    let h : y + (13 - 1) / 12 ≡ suc y = omega arith in
    ap (λ (k : ℕ). day_number k 1 1) h ∙ day_number-january (suc y) 0 ∙ omega arith

days_before_month-grows :
    (leap : Bool) (m : ℕ) → m ≤ 12 → days_before_month leap m ≤ days_before_month leap (suc m)
unfolding days_before_month
days_before_month-grows leap m q = ground arith

days_before_thirteen : (y : ℕ) → days_before_month (is_leap y) 13 ≡ year_days y
unfolding days_before_month
days_before_thirteen y = ground arith

days_in_month_lem :
    (y m : ℕ)
    → days_in_month y m ≡ days_before_month (is_leap y) (suc m) - days_before_month (is_leap y) m
unfolding days_in_month
days_in_month_lem y m =
    let h : m + 1 ≡ suc m = omega arith in
    ap (λ (k : ℕ). days_before_month (is_leap y) k - days_before_month (is_leap y) m) h

-- The first of the next month is the days of the month later, also in December.
pub month_start-next :
    (y m : ℕ) → 1 ≤ m → m ≤ 12 → month_start y (suc m) ≡ month_start y m + days_in_month y m
month_start-next y m p q = elim (Bool-cases (m == 12)) [
  | inl e ↦
      let h : m ≡ 12 = ground arith in
      rw h (
        omega (
          arith,
          month_start-thirteen y,
          next_year y,
          days_in_month_lem y 12,
          month_start-in_year y 12 (omega arith) (omega arith),
          days_before_thirteen y,
          days_before_month-grows (is_leap y) 12 (omega arith),
        ))
  | inr e ↦
      let h : suc m ≤ 12 = ground arith in
      omega (
        arith,
        days_in_month_lem y m,
        month_start-in_year y m p q,
        month_start-in_year y (suc m) (omega arith) h,
        days_before_month-grows (is_leap y) m q,
      )
]

-- Months beyond December are months of a later year.
month_start-carry :
    (y m k : ℕ) → month_start y (suc (m + k)) ≡ month_start (y + m / 12) (suc ((m % 12) + k))
unfolding month_start
month_start-carry y m k =
    ap (λ (a : ℕ). day_number a (((suc (m + k) - 1) % 12) + 1) 1) (years y m k)
    ∙ ap (λ (b : ℕ). day_number (y + m / 12 + (suc ((m % 12) + k) - 1) / 12) b 1) (months m k)
  where
    years : (y m k : ℕ) → y + (suc (m + k) - 1) / 12 ≡ y + m / 12 + (suc ((m % 12) + k) - 1) / 12
    years y m k = omega arith

    months : (m k : ℕ) → ((suc (m + k) - 1) % 12) + 1 ≡ ((suc ((m % 12) + k) - 1) % 12) + 1
    months m k = omega arith

-- Two months on, the days of both are over.
pub month_start-two :
    (y m : ℕ)
    → 1 ≤ m
    → m ≤ 12
    → month_start y (m + 2)
      ≡ month_start y m + days_in_month y m + days_in_month (y + m / 12) (suc (m % 12))
month_start-two y m p q =
    let two : m + 2 ≡ suc (m + 1) = omega arith in
    let more : suc ((m % 12) + 1) ≡ suc (suc (m % 12)) = omega arith in
    let one : suc (m + 0) ≡ suc m = omega arith in
    let same : suc ((m % 12) + 0) ≡ suc (m % 12) = omega arith in
    ap (month_start y) two
    ∙ month_start-carry y m 1
    ∙ ap (month_start (y + m / 12)) more
    ∙ month_start-next (y + m / 12) (suc (m % 12)) (omega arith) (omega arith)
    ∙ ap (λ (d : ℕ). d + days_in_month (y + m / 12) (suc (m % 12)))
        (ap (month_start (y + m / 12)) (sym same)
          ∙ sym (month_start-carry y m 0)
          ∙ ap (month_start y) one
          ∙ month_start-next y m p q)
