-- ===== src/Expiration/Weeks.antt =====
-- Names of weeks: how far their expiration is from the Monday of the ISO week.
use go_leaderboard.Base.{
  ℕ, suc, ◌+◌, ◌-◌, ◌*◌, ◌≤◌, ◌<◌, ◌≡◌, ◌==◌, refl, ap, ◌∙◌, arith, leb, ◌&&◌, ◌||◌, if◌then◌else◌,
  Bool-cases, inl, inr,
}
use go_leaderboard.Base.Int.{ℤ, pos, sub_ℕ, ◌+ℤ◌, ◌-ℤ◌, ◌*ℤ◌}
use go_leaderboard.Base.Effect.{ok}
use go_leaderboard.Base.Bytes.{Text}
use go_leaderboard.Expiration.Pattern.{week}
use go_leaderboard.Expiration.Date.{is_leap, weekday, day_number, day_unix, iso_week_of_first}
use go_leaderboard.Expiration.Calendar.{year_days, day_number-january, day_number-next_year}
use go_leaderboard.Expiration.Periods.{IsPeriodName, until, by_period_end}
use go_leaderboard.Expiration.Name.{int32_value, get_expire_at, period_end, weekly_expiration}

-- The Monday of a week of the ISO calendar: week 1 is the week of January 4.
abbrev pub iso_monday : ℕ → ℕ → ℕ
iso_monday y w = let d = day_number y 1 4 in d - weekday d + (w - 1) * 7

minus_lem : (w k : ℕ) → pos w -ℤ pos k ≡ sub_ℕ w k
unfolding ◌-ℤ◌
minus_lem w k = ground arith

times_seven : (w k : ℕ) → sub_ℕ w k *ℤ pos 7 ≡ sub_ℕ (w * 7) (k * 7)
unfolding ◌*ℤ◌
times_seven w k = ground arith

plus_lem : (s a b : ℕ) → pos s +ℤ sub_ℕ a b ≡ sub_ℕ (s + a) b
unfolding ◌+ℤ◌
plus_lem s a b = ground arith

plus_fourteen : (a b : ℕ) → b ≤ a + 14 → sub_ℕ a b +ℤ pos 14 ≡ pos (a + 14 - b)
unfolding ◌+ℤ◌
plus_fourteen a b h = ground arith

moved :
    (start w k : ℕ)
    → k * 7 ≤ start + w * 7 + 14
    → pos start +ℤ (pos w -ℤ pos k) *ℤ pos 7 +ℤ pos 14 ≡ pos (start + w * 7 + 14 - k * 7)
moved start w k h =
    ap (λ (d : ℤ). pos start +ℤ d *ℤ pos 7 +ℤ pos 14) (minus_lem w k)
    ∙ ap (λ (d : ℤ). pos start +ℤ d +ℤ pos 14) (times_seven w k)
    ∙ ap (λ (d : ℤ). d +ℤ pos 14) (plus_lem start (w * 7) (k * 7))
    ∙ plus_fourteen (start + w * 7) (k * 7) h

-- At least 12 and at most 22 days after the Monday; at least 14 and at most 17 if the year begins
-- on a Monday to Thursday.
abbrev pub IsNear : ℕ → ℕ → ℕ → Type 0
IsNear y w day =
    (iso_monday y w + 12 ≤ day)
    × (day ≤ iso_monday y w + 22)
    × (weekday (day_number y 1 1) ≤ 3 → (iso_monday y w + 14 ≤ day) × (day ≤ iso_monday y w + 17))

-- The expiration, by the ISO year and week of January 1.
weekly_expiration_lem :
    (y w i k start : ℕ)
    → 1000 ≤ y
    → y ≤ 9999
    → iso_week_of_first y ≡ (i, k)
    → day_number (y + y - i) 1 1 ≡ start
    → k * 7 ≤ start + w * 7 + 14
    → weekly_expiration y (pos w) ≡ day_unix (pos (start + w * 7 + 14 - k * 7))
unfolding weekly_expiration
weekly_expiration_lem y w i k start p q e s h =
    rw (in_range y p q, weekly_expiration)
      (rw e (
        ap (λ (n : ℕ). day_unix (pos n +ℤ (pos w -ℤ pos k) *ℤ pos 7 +ℤ pos 14)) s
        ∙ ap day_unix (moved start w k h)))
  where
    in_range : (y : ℕ) → 1000 ≤ y → y ≤ 9999 → (if leb 1000 y && leb y 9999 then y else 1) ≡ y
    in_range y p q = ground arith

-- January 4 is three days after January 1.
fourth : (y : ℕ) → day_number y 1 4 ≡ day_number y 1 1 + 3
fourth y = omega (arith, day_number-january y 3, day_number-january y 0)

early_IsNear :
    (y w : ℕ)
    → weekday (day_number y 1 1) ≤ 3
    → 1 ≤ w
    → IsNear y w (day_number y 1 1 + w * 7 + 14 - 1 * 7)
early_IsNear y w e h = (
  omega (arith, fourth y),
  omega (arith, fourth y),
  λ _. (omega (arith, fourth y), omega (arith, fourth y)),
)

year_days-lo : (y : ℕ) → 365 ≤ year_days y
year_days-lo y = ground arith

year_days-hi : (y : ℕ) → year_days y ≤ 366
year_days-hi y = ground arith

-- The last week of the year before.
abbrev last_week : ℕ → ℕ
last_week y =
    let v = weekday (day_number (y - 1) 1 1) in
    if (v == 3) || ((v == 2) && is_leap (y - 1)) then 53 else 52

last_week-lo : (y : ℕ) → 52 ≤ last_week y
last_week-lo y = ground arith

last_week-hi : (y : ℕ) → last_week y ≤ 53
last_week-hi y = ground arith

late_IsNear :
    (y w k : ℕ)
    → 3 < weekday (day_number y 1 1)
    → 52 ≤ k
    → k ≤ 53
    → 1 ≤ w
    → IsNear y w (day_number (suc y) 1 1 + w * 7 + 14 - k * 7)
late_IsNear y w k e a b h = (
  omega (arith, fourth y, day_number-next_year y, year_days-lo y),
  omega (arith, fourth y, day_number-next_year y, year_days-hi y),
  λ f. absurd (omega arith),
)

weekly_expiration-IsNear :
    (y w : ℕ)
    → 1000 ≤ y
    → y ≤ 9999
    → 1 ≤ w
    → (day : ℕ) × (weekly_expiration y (pos w) ≡ day_unix (pos day)) × IsNear y w day
unfolding iso_week_of_first
weekly_expiration-IsNear y w p q h = elim (Bool-cases (leb (weekday (day_number y 1 1)) 3)) [
  | inl e ↦ (
    day_number y 1 1 + w * 7 + 14 - 1 * 7,
    weekly_expiration_lem y w y 1 (day_number y 1 1) p q (rw e refl)
        (ap (λ (k : ℕ). day_number k 1 1) (same_year y)) (omega arith),
    early_IsNear y w (ground arith) h,
  )
  | inr e ↦ (
    day_number (suc y) 1 1 + w * 7 + 14 - last_week y * 7,
    weekly_expiration_lem y w (y - 1) (last_week y) (day_number (suc y) 1 1) p q (rw e refl)
        (ap (λ (k : ℕ). day_number k 1 1) (next_year y p))
        (omega (arith, day_number-next_year y, year_days-lo y, last_week-hi y)),
    late_IsNear y w (last_week y) (ground arith) (last_week-lo y) (last_week-hi y) h,
  )
]
  where
    same_year : (y : ℕ) → y + y - y ≡ y
    same_year y = omega arith

    next_year : (y : ℕ) → 1000 ≤ y → y + y - (y - 1) ≡ suc y
    next_year y p = omega arith

-- A name that ends in a year from 1000 to 9999 and a week from 1, and in no range of times or
-- dates, expires at the start of a day from 12 to 22 days after the Monday of that week of the ISO
-- calendar, from 14 to 17 days if the year begins on a Monday to Thursday; if that is not after
-- now, it is the error of an expired leaderboard.
pub week_name-IsNear :
    (now : ℤ) (name : Text) (y w : ℕ) (number : Text)
    → IsPeriodName name y week number
    → int32_value number ≡ pos w
    → 1000 ≤ y
    → y ≤ 9999
    → 1 ≤ w
    → (day : ℕ) × (get_expire_at now name ≡ until now name day) × IsNear y w day
unfolding period_end
week_name-IsNear now name y w number u v p q h =
    let (day, e, near) = weekly_expiration-IsNear y w p q h in
    (day, by_period_end now name y week number u day (rw u.year_value (rw v (ap ok e))), near)
