-- ===== src/Go/Word.antt =====
-- Go's `int` and `int64` (64 bits) and `int32`, as integers with the wrap-around written out.
use go_leaderboard.Base.{ℕ, ◌-◌, ◌*◌, ◌%◌, ◌≤◌, ◌<◌, ◌≡◌, arith, ltb, if◌then◌else◌}
use go_leaderboard.Base.Int.{ℤ, pos, negsuc, pos_part, neg_part, ◌+ℤ◌, ◌-ℤ◌, ◌*ℤ◌}

-- z modulo 2h, as a number.
abbrev residue : ℕ → ℤ → ℕ
residue h (pos n) = n % (2 * h)
residue h (negsuc n) = 2 * h - 1 - n % (2 * h)

-- The residue read in two's complement.
abbrev signed : ℕ → ℕ → ℤ
signed h r = if ltb r h then pos r else negsuc (2 * h - 1 - r)

abbrev pub half64 : ℕ
half64 = 9223372036854775808

abbrev pub half32 : ℕ
half32 = 2147483648

unfoldable pub wrap64 : ℤ → ℤ
wrap64 z = signed half64 (residue half64 z)

unfoldable pub wrap32 : ℤ → ℤ
wrap32 z = signed half32 (residue half32 z)

abbrev pub IsInt64 : ℤ → Type 0
IsInt64 z = (pos_part z < half64) × (neg_part z ≤ half64)

abbrev pub IsInt32 : ℤ → Type 0
IsInt32 z = (pos_part z < half32) × (neg_part z ≤ half32)

pub wrap64_id : (z : ℤ) → IsInt64 z → wrap64 z ≡ z
unfolding wrap64
wrap64_id (pos n) h = ground arith
wrap64_id (negsuc n) h = ground arith

pub wrap64-IsInt64 : (z : ℤ) → IsInt64 (wrap64 z)
unfolding wrap64
wrap64-IsInt64 (pos n) = ground arith
wrap64-IsInt64 (negsuc n) = ground arith

pub wrap32_id : (z : ℤ) → IsInt32 z → wrap32 z ≡ z
unfolding wrap32
wrap32_id (pos n) h = ground arith
wrap32_id (negsuc n) h = ground arith

infixl 65 ◌+w◌ ◌-w◌
infixl 70 ◌*w◌
unfoldable pub ◌+w◌ : ℤ → ℤ → ℤ
unfolding wrap64 ◌+ℤ◌
a +w b = wrap64 (a +ℤ b)

unfoldable pub ◌-w◌ : ℤ → ℤ → ℤ
unfolding wrap64 ◌-ℤ◌
a -w b = wrap64 (a -ℤ b)

unfoldable pub ◌*w◌ : ℤ → ℤ → ℤ
unfolding wrap64 ◌*ℤ◌
a *w b = wrap64 (a *ℤ b)
