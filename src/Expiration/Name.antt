-- ===== src/Expiration/Name.antt =====
-- leaderboard/expiration/expiration.go
use go_leaderboard.Base.{
  ℕ, ◌+◌, ◌-◌, ◌*◌, ltb, leb, ◌&&◌, if◌then◌else◌, length, take, drop, not, none, some, ◌∷◌, ◌++◌,
}
use go_leaderboard.Base.Int.{ℤ, pos, negsuc, pos_part, ◌+ℤ◌, ◌-ℤ◌, ◌*ℤ◌, leb_ℤ}
use go_leaderboard.Base.Effect.{Outcome, ok, err, panic}
use go_leaderboard.Base.Bytes.{Text, codes}
use go_leaderboard.Go.Word.{half32, ◌+w◌, ◌-w◌}
use go_leaderboard.Go.Strconv.{parse_int, digits_value}
use go_leaderboard.Expiration.Errors.{
  ExpirationError, invalid_duration, leaderboard_expired, parse_error,
}
use go_leaderboard.Expiration.Date.{
  day_number, day_unix, month_start, iso_week_of_first, days_in_month,
}
use go_leaderboard.Expiration.Pattern.{
  find, from_to, yearly, periodic, digits10, date8, Period, week, quarter, month,
}

abbrev pub no_expiration : ℤ
no_expiration = negsuc 0

-- `now` is time.Now().UTC().Unix().
unfoldable pub check_expire_at_errors : ℤ → Text → ℤ → ℤ → Outcome ExpirationError ℤ
unfolding ◌+w◌ ◌-w◌
check_expire_at_errors now name start end =
    let duration = end -w start in
    let expire_at = end +w duration in
    if leb_ℤ duration (pos 0)
    then err (invalid_duration name duration)
    else if leb_ℤ expire_at now
    then err (leaderboard_expired name)
    else ok expire_at

-- The value of a text of digits that the pattern has matched.
abbrev pub value : Text → ℕ
value s = elim (digits_value 0 s) [ some n ↦ n | none ↦ 0 ]

-- ParseInt(s, 10, 32), whose error the code drops
abbrev pub int32_value : Text → ℤ
int32_value s = (parse_int half32 s).0

abbrev quoted : Text → Text
quoted s = b'"' ∷ (s ++ codes "\"")

-- What time.Parse says of a value out of range, and of one that does not fit its layout.
abbrev out_of_range : Text → Text → ExpirationError
out_of_range s part =
    parse_error
      (codes "parsing time " ++ (quoted s ++ (codes ": " ++ (part ++ codes " out of range"))))

abbrev cannot_parse : Text → Text → Text → ExpirationError
cannot_parse s layout rest = parse_error (
    codes "parsing time "
    ++ (quoted s
        ++ (codes " as "
            ++ (quoted layout
                ++ (codes ": cannot parse " ++ (quoted rest ++ codes " as \"01\""))))))

-- time.Parse("20060102", s) for a match of the pattern: the start of a day in Unix time
unfoldable pub parse_date : Text → Outcome ExpirationError ℤ
unfolding day_number day_unix digits_value
parse_date s =
    let y = value (take 4 s) in
    let m = value (take 2 (drop 4 s)) in
    let d = value (drop 6 s) in
    elim (digits_value 0 (take 2 (drop 4 s))) [
      | none ↦ err (cannot_parse s (codes "20060102") (drop 4 s))
      | some _ ↦
          if not (leb 1 m && leb m 12)
          then err (out_of_range s (codes "month"))
          else if not (leb 1 d && leb d (days_in_month y m))
          then err (out_of_range s (codes "day"))
          else ok (day_unix (pos (day_number y m d)))
    ]

-- time.Parse("2006", Itoa(year)), which fails below 1000; the code then goes on with year 1.
abbrev dummy_year : ℕ → ℕ
dummy_year year = if leb 1000 year && leb year 9999 then year else 1

-- WeeklyExpiration(year, week).Unix()
unfoldable pub weekly_expiration : ℕ → ℤ → ℤ
unfolding day_number day_unix iso_week_of_first ◌+ℤ◌ ◌-ℤ◌ ◌*ℤ◌
weekly_expiration year w =
    let dummy = dummy_year year in
    let (iso_year, iso_week) = iso_week_of_first dummy in
    let start = day_number (dummy + year - iso_year) 1 1 in
    day_unix (pos start +ℤ (w -ℤ pos iso_week) *ℤ pos 7 +ℤ pos 14)

-- MonthlyExpiration(startTime).Unix(), from the first of a month
unfoldable pub monthly_expiration : ℕ → ℕ → ℤ
unfolding month_start day_unix
monthly_expiration year m = day_unix (pos (month_start year (m + 2)))

-- QuarterlyExpiration(year, quarter).Unix(); the first AddDate goes back for quarter 0.
unfoldable pub quarterly_expiration : ℕ → ℕ → ℤ
unfolding month_start day_unix
quarterly_expiration year q = day_unix (pos (month_start (dummy_year year) (1 + q * 3 + 6 - 3)))

-- The end of a yearly name: January 1, two years later.
unfoldable pub yearly_expiration : ℕ → ℤ
unfolding day_number day_unix
yearly_expiration year = day_unix (pos (day_number (year + 2) 1 1))

infixl 5 ◌>>=◌
abbrev pub ◌>>=◌ :
    {A B : Type 0}
    → Outcome ExpirationError A
    → (A → Outcome ExpirationError B)
    → Outcome ExpirationError B
ok a >>= f = f a
err e >>= f = err e
panic >>= f = panic

unfoldable pub unless_expired : ℤ → Text → ℤ → Outcome ExpirationError ℤ
unless_expired now name end = if leb_ℤ end now then err (leaderboard_expired name) else ok end

-- time.Parse("200601", year ++ n) for digits n: two of them are the month, more are too many.
unfoldable pub parse_month : Text → Text → Outcome ExpirationError ℕ
parse_month y n =
    let m = value (take 2 n) in
    if ltb (length n) 2
    then err (cannot_parse (y ++ n) (codes "200601") n)
    else if not (leb 1 m && leb m 12)
    then err (out_of_range (y ++ n) (codes "month"))
    else if ltb 2 (length n)
    then err (
        parse_error (
          codes "parsing time "
          ++ (quoted (y ++ n) ++ (codes ": extra text: " ++ quoted (drop 2 n)))))
    else ok m

unfoldable pub period_end : Text → Period → Text → Outcome ExpirationError ℤ
unfolding parse_month monthly_expiration weekly_expiration quarterly_expiration
period_end y month n = do m ← parse_month y n; ok (monthly_expiration (value y) m)
period_end y week n = ok (weekly_expiration (value y) (int32_value n))
period_end y quarter n = ok (quarterly_expiration (value y) (pos_part (int32_value n)))

-- The four patterns in turn, each with what follows it.
unfoldable pub by_period : ℤ → Text → Outcome ExpirationError ℤ
unfolding unless_expired
by_period now name = elim (find periodic name) [
  | none ↦ ok no_expiration
  | some (y, p, n) ↦ (do end ← period_end y p n; unless_expired now name end)
]

unfoldable pub by_year : ℤ → Text → Outcome ExpirationError ℤ
unfolding by_period yearly_expiration
by_year now name = elim (find yearly name) [
  | none ↦ by_period now name
  | some y ↦ unless_expired now name (yearly_expiration (value y))
]

unfoldable pub by_dates : ℤ → Text → Outcome ExpirationError ℤ
unfolding by_year
by_dates now name = elim (find (from_to date8) name) [
  | none ↦ by_year now name
  | some (a, b) ↦ (do
    start ← parse_date a
    end ← parse_date b
    check_expire_at_errors now name start end)
]

unfoldable pub get_expire_at : ℤ → Text → Outcome ExpirationError ℤ
unfolding by_dates
get_expire_at now name = elim (find (from_to digits10) name) [
  | none ↦ by_dates now name
  | some (a, b) ↦ check_expire_at_errors now name (int32_value a) (int32_value b)
]
