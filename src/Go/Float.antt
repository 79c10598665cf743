-- ===== src/Go/Float.antt =====
-- float64 with rounding to nearest even, for the operations of the code: conversions from and to
-- int64, division, multiplication, math.Ceil and math.Floor. Subnormal numbers do not arise.
use go_leaderboard.Base.{
  ℕ, zero, suc, ◌+◌, ◌*◌, ◌/◌, ◌%◌, ◌^◌, ◌<◌, ◌≡◌, refl, arith, ap, lt→ltb, ltb, ◌==◌, Bool, true,
  false, not, if◌then◌else◌, ◌&&◌,
}
use go_leaderboard.Base.Int.{ℤ, pos, negsuc, pos_part, neg_part, sub_ℕ}
use go_leaderboard.Go.Word.{half64}

-- `finite m k` is m / 2 ^ k; `infinite true` is -∞.
pub data Float64 : Type 0 where
  finite : ℤ → ℕ → Float64
  infinite : Bool → Float64
  nan : Float64

-- n / d to the nearest number, a half to the even one.
unfoldable pub nearest : ℕ → ℕ → ℕ
nearest n d =
    let q = n / d in
    let r = n % d in if ltb (2 * r) d then q else if ltb d (2 * r) then q + 1 else q + q % 2

-- How often n is halved until it has at most 53 bits.
unfoldable pub excess : ℕ → ℕ → ℕ
excess zero n = 0
excess (suc f) n = elim (ltb n 9007199254740992) [ true ↦ 0 | false ↦ suc (excess f (n / 2)) ]

-- How often n is doubled until n / d has at least 53 bits.
unfoldable pub doublings : ℕ → ℕ → ℕ → ℕ
doublings zero n d = 0
doublings (suc f) n d = elim (ltb n (4503599627370496 * d)) [
  | true ↦ suc (doublings f (2 * n) d)
  | false ↦ 0
]

-- No exponent of a float64 passes 1100.
abbrev exponents : ℕ
exponents = 1100

abbrev pub with_sign : Bool → ℕ → ℤ
with_sign true n = sub_ℕ 0 n
with_sign false n = pos n

-- ± n / d, rounded to 53 bits.
unfoldable pub rounded : Bool → ℕ → ℕ → Float64
unfolding nearest excess doublings
rounded s n d =
    let e = doublings exponents n d in
    let u = 2 ^ excess exponents (n / d) in
    let m = nearest (n * 2 ^ e) (d * u) * u in
    if n == 0 then finite (pos 0) 0 else finite (with_sign s m) e

abbrev pub magnitude : ℤ → ℕ
magnitude z = pos_part z + neg_part z

abbrev pub is_neg : ℤ → Bool
is_neg (pos n) = false
is_neg (negsuc n) = true

abbrev pub differ : Bool → Bool → Bool
differ true b = not b
differ false b = b

-- float64(z)
unfoldable pub of_int : ℤ → Float64
unfolding nearest excess
of_int z =
    let u = 2 ^ excess exponents (magnitude z) in
    finite (with_sign (is_neg z) (nearest (magnitude z) u * u)) 0

-- What a conversion out of range gives on amd64.
abbrev pub indefinite : ℤ
indefinite = negsuc 9223372036854775807

abbrev in_range : ℤ → Bool
in_range z = ltb (pos_part z) half64 && not (ltb half64 (neg_part z))

-- int64(x)
unfoldable pub to_int : Float64 → ℤ
to_int (finite m k) =
    let z = with_sign (is_neg m) (magnitude m / 2 ^ k) in if in_range z then z else indefinite
to_int (infinite s) = indefinite
to_int nan = indefinite

-- a / b
unfoldable pub div : Float64 → Float64 → Float64
unfolding rounded
div (finite m k) (finite n l) =
    if magnitude n == 0
    then (if magnitude m == 0 then nan else infinite (is_neg m))
    else rounded (differ (is_neg m) (is_neg n)) (magnitude m * 2 ^ l) (magnitude n * 2 ^ k)
div (finite m k) (infinite t) = finite (pos 0) 0
div (infinite s) (finite n l) = infinite (differ s (is_neg n))
div _ _ = nan

-- a * b
unfoldable pub mul : Float64 → Float64 → Float64
unfolding rounded
mul (finite m k) (finite n l) =
    rounded (differ (is_neg m) (is_neg n)) (magnitude m * magnitude n) (2 ^ (k + l))
mul (finite m k) (infinite t) = if magnitude m == 0 then nan else infinite (differ (is_neg m) t)
mul (infinite s) (finite n l) = if magnitude n == 0 then nan else infinite (differ s (is_neg n))
mul (infinite s) (infinite t) = infinite (differ s t)
mul _ _ = nan

-- The magnitude n / d rounded up.
abbrev pub up : ℕ → ℕ → ℕ
up n d = n / d + (if n % d == 0 then 0 else 1)

-- math.Ceil
unfoldable pub ceil : Float64 → Float64
ceil (finite (pos n) k) = finite (pos (up n (2 ^ k))) 0
ceil (finite (negsuc n) k) = finite (sub_ℕ 0 (suc n / 2 ^ k)) 0
ceil x = x

-- math.Floor
unfoldable pub floor : Float64 → Float64
floor (finite (pos n) k) = finite (pos (n / 2 ^ k)) 0
floor (finite (negsuc n) k) = finite (sub_ℕ 0 (up (suc n) (2 ^ k))) 0
floor x = x

-- math.Max, of numbers that are no NaN
unfoldable pub fmax : Float64 → Float64 → Float64
fmax (finite (pos m) k) (finite (pos n) l) =
    if ltb (m * 2 ^ l) (n * 2 ^ k) then finite (pos n) l else finite (pos m) k
fmax (finite (negsuc m) k) (finite (negsuc n) l) =
    if ltb (suc m * 2 ^ l) (suc n * 2 ^ k) then finite (negsuc m) k else finite (negsuc n) l
fmax (finite (negsuc m) k) (finite (pos n) l) = finite (pos n) l
fmax (finite (pos m) k) (finite (negsuc n) l) = finite (pos m) k
fmax (infinite true) y = y
fmax (infinite false) y = infinite false
fmax x (infinite true) = x
fmax x (infinite false) = infinite false
fmax _ _ = nan

with_sign-magnitude : (z : ℤ) → with_sign (is_neg z) (magnitude z) ≡ z
with_sign-magnitude (pos n) = ground arith
with_sign-magnitude (negsuc n) = ground arith

pub excess_small : (f n : ℕ) → n < 9007199254740992 → excess f n ≡ 0
unfolding excess
excess_small zero n h = refl
excess_small (suc f) n h = rw (lt→ltb n 9007199254740992 h, excess)

nearest_one : (n : ℕ) → nearest n 1 ≡ n
unfolding nearest
nearest_one n = ground arith

nearest_unit : (n e : ℕ) → e ≡ 0 → nearest n (2 ^ e) * 2 ^ e ≡ n
nearest_unit n e h = rw h (omega (arith, nearest_one n))

-- An integer of at most 53 bits is kept.
pub of_int_exact : (z : ℤ) → magnitude z < 9007199254740992 → of_int z ≡ finite z 0
of_int_exact z h =
    unfold of_int in
    rw (nearest_unit (magnitude z) _ (excess_small exponents (magnitude z) h))
      (ap (λ (m : ℤ). finite m 0) (with_sign-magnitude z))

pub to_int-of_int : (z : ℤ) → magnitude z < 9007199254740992 → to_int (of_int z) ≡ z
to_int-of_int (pos n) h = rw (of_int_exact (pos n) h) (unfold to_int in ground arith)
to_int-of_int (negsuc n) h = rw (of_int_exact (negsuc n) h) (unfold to_int in ground arith)
