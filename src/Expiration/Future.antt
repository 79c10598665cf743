-- ===== src/Expiration/Future.antt =====
-- What GetExpireAt promises of the times that it returns.
use go_leaderboard.Base.{◌≡◌, refl, arith, ◌≢◌, ◌⊎◌, inl, inr, Option-cases, Bool-cases, false}
use go_leaderboard.Base.Int.{ℤ, pos, ◌<ℤ◌, leb_ℤ}
use go_leaderboard.Base.Effect.{Outcome, ok, err, panic}
use go_leaderboard.Base.Bytes.{Text}
use go_leaderboard.Go.Word.{◌+w◌, ◌-w◌}
use go_leaderboard.Expiration.Errors.{ExpirationError}
use go_leaderboard.Expiration.Pattern.{
  find, from_to, yearly, periodic, digits10, date8, Period, week, quarter, month,
}
use go_leaderboard.Expiration.Name.{
  no_expiration, check_expire_at_errors, unless_expired, period_end, parse_date, by_period, by_year,
  by_dates, get_expire_at, value, yearly_expiration, parse_month, ◌>>=◌,
}

-- No expiration, or one that is still to come.
abbrev pub IsAhead : ℤ → Outcome ExpirationError ℤ → Type 0
IsAhead now (ok e) = (e ≡ no_expiration) ⊎ (now <ℤ e)
IsAhead now (err e) = Unit
IsAhead now panic = ⊥

later : (now e : ℤ) → leb_ℤ e now ≡ false → now <ℤ e
later now e h = ground arith

unless_expired-IsAhead : (now : ℤ) (name : Text) (e : ℤ) → IsAhead now (unless_expired now name e)
unfolding unless_expired
unless_expired-IsAhead now name e = elim (Bool-cases (leb_ℤ e now)) [
  | inl h ↦ rw (h, unless_expired) tt
  | inr h ↦ rw (h, unless_expired) (inr (later now e h))
]

check-IsAhead :
    (now : ℤ) (name : Text) (start end : ℤ)
    → IsAhead now (check_expire_at_errors now name start end)
unfolding check_expire_at_errors
check-IsAhead now name start end = elim (Bool-cases (leb_ℤ (end -w start) (pos 0))) [
  | inl h ↦ rw (h, check_expire_at_errors) tt
  | inr h ↦
      rw (h, check_expire_at_errors)
        (elim (Bool-cases (leb_ℤ (end +w (end -w start)) now)) [
          | inl k ↦ rw k tt
          | inr k ↦ rw k (inr (later now _ k))
        ])
]

-- A step that does not panic, before one whose outcome is ahead.
bind-IsAhead :
    (now : ℤ) {A : Type 0} (m : Outcome ExpirationError A) (f : A → Outcome ExpirationError ℤ)
    → m ≢ panic
    → ((a : A) → IsAhead now (f a))
    → IsAhead now (m >>= f)
bind-IsAhead now (ok a) f p h = h a
bind-IsAhead now (err e) f p h = tt
bind-IsAhead now panic f p h = p refl

parse_date-ne-panic : (s : Text) → parse_date s ≢ panic
unfolding parse_date
parse_date-ne-panic s = ground arith

period_end-ne-panic : (y : Text) (p : Period) (n : Text) → period_end y p n ≢ panic
unfolding period_end
period_end-ne-panic y week n = λ e. cc
period_end-ne-panic y quarter n = λ e. cc
period_end-ne-panic y month n = unfold parse_month in ground arith

by_period-IsAhead : (now : ℤ) (name : Text) → IsAhead now (by_period now name)
unfolding by_period
by_period-IsAhead now name = elim (Option-cases (find periodic name)) [
  | inl e ↦ rw (e, by_period) (inl refl)
  | inr ((y, p, n), e) ↦
      rw (e, by_period)
        (bind-IsAhead now (period_end y p n) (unless_expired now name) (period_end-ne-panic y p n)
          (unless_expired-IsAhead now name))
]

by_year-IsAhead : (now : ℤ) (name : Text) → IsAhead now (by_year now name)
unfolding by_year
by_year-IsAhead now name = elim (Option-cases (find yearly name)) [
  | inl e ↦ rw (e, by_year) (by_period-IsAhead now name)
  | inr (y, e) ↦ rw (e, by_year) (unless_expired-IsAhead now name (yearly_expiration (value y)))
]

by_dates-IsAhead : (now : ℤ) (name : Text) → IsAhead now (by_dates now name)
unfolding by_dates
by_dates-IsAhead now name = elim (Option-cases (find (from_to date8) name)) [
  | inl e ↦ rw (e, by_dates) (by_year-IsAhead now name)
  | inr ((a, b), e) ↦
      rw (e, by_dates)
        (bind-IsAhead now (parse_date a) _ (parse_date-ne-panic a) λ start.
          bind-IsAhead now (parse_date b) _ (parse_date-ne-panic b)
            λ end. check-IsAhead now name start end)
]

-- Whatever the name and the time now, GetExpireAt does not panic, and a time that it returns is
-- after now, unless it is -1, which stands for no expiration.
pub get_expire_at-IsAhead : (now : ℤ) (name : Text) → IsAhead now (get_expire_at now name)
unfolding get_expire_at
get_expire_at-IsAhead now name = elim (Option-cases (find (from_to digits10) name)) [
  | inl e ↦ rw (e, get_expire_at) (by_dates-IsAhead now name)
  | inr ((a, b), e) ↦ rw (e, get_expire_at) (check-IsAhead now name _ _)
]
