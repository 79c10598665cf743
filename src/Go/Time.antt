-- ===== src/Go/Time.antt =====
-- time.Time as far as the code uses it: the zero value, time.Unix, Add and Unix.
use go_leaderboard.Base.{ℕ, ◌-◌, ◌/◌, ◌%◌, Bool, true, false}
use go_leaderboard.Base.Int.{ℤ, pos, negsuc, ◌+ℤ◌}

-- The zero value, or seconds and nanoseconds since 1970. No value of the second kind equals the
-- zero value under `!=`, which compares the locations too.
pub data Time : Type 0 where
  zero_time : Time
  at : ℤ → ℕ → Time

abbrev pub nanos : ℕ
nanos = 1000000000

unfoldable pub floor_div : ℤ → ℕ → ℤ
floor_div (pos n) d = pos (n / d)
floor_div (negsuc n) d = negsuc (n / d)

unfoldable pub floor_mod : ℤ → ℕ → ℕ
floor_mod (pos n) d = n % d
floor_mod (negsuc n) d = d - 1 - n % d

-- January 1 of year 1.
abbrev pub zero_unix : ℤ
zero_unix = negsuc 62135596799

-- t.Unix()
unfoldable pub unix : Time → ℤ
unix zero_time = zero_unix
unix (at s n) = s

-- t.Add(d), d in nanoseconds
unfoldable pub add : Time → ℤ → Time
unfolding floor_div floor_mod
add zero_time d = at (zero_unix +ℤ floor_div d nanos) (floor_mod d nanos)
add (at s n) d = at (s +ℤ floor_div (pos n +ℤ d) nanos) (floor_mod (pos n +ℤ d) nanos)

-- t == time.Time{}
abbrev pub is_zero : Time → Bool
is_zero zero_time = true
is_zero (at s n) = false
