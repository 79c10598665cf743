-- ===== src/Service/Pages/Quarters.antt =====
-- The share of GetTopPercentage for the quarters, which a float64 holds exactly.
use go_leaderboard.Base.{
  ℕ, zero, suc, ◌+◌, ◌-◌, ◌*◌, ◌/◌, ◌%◌, ◌^◌, ◌≤◌, ◌<◌, ◌≡◌, refl, sym, ap, ◌∙◌, arith, ◌==◌, false,
  lt→ltb, if◌then◌else◌, Bool-cases, inl, inr,
}
use native.Mathlib.Nat as Nat
use go_leaderboard.Base.Int.{pos}
use go_leaderboard.Go.Float.{
  Float64, finite, of_int, of_int_exact, to_int, to_int-of_int, mul, div, floor, nearest, doublings,
  excess, excess_small, rounded,
}
use go_leaderboard.Service.Pages.{share}

quarter : div (of_int (pos 25)) (of_int (pos 100)) ≡ finite (pos 4503599627370496) 54
unfolding div of_int
quarter = refl

half : div (of_int (pos 50)) (of_int (pos 100)) ≡ finite (pos 4503599627370496) 53
unfolding div of_int
half = refl

three_quarters : div (of_int (pos 75)) (of_int (pos 100)) ≡ finite (pos 6755399441055744) 53
unfolding div of_int
three_quarters = refl

whole : div (of_int (pos 100)) (of_int (pos 100)) ≡ finite (pos 4503599627370496) 52
unfolding div of_int
whole = refl

-- A quotient below 2^50 is doubled at least twice.
doubled_twice :
    (f n d : ℕ) → n < 1125899906842624 * d → (e : ℕ) × (doublings (suc (suc f)) n d ≡ suc (suc e))
unfolding doublings
doubled_twice f n d h = (
  doublings f (2 * (2 * n)) d,
  rw (lt→ltb n (4503599627370496 * d) (omega (arith, h)), doublings)
      (rw (lt→ltb (2 * n) (4503599627370496 * d) (omega (arith, h)), doublings) refl),
)

power : (e : ℕ) → 2 ^ suc (suc e) ≡ 4 * 2 ^ e
power e = omega arith

positive : (e : ℕ) → 0 < 2 ^ e
positive zero = omega arith
positive (suc e) = omega (arith, positive e)

cancel : (a p : ℕ) → 0 < p → (a * p) / (4 * p) ≡ a / 4
cancel a p h = Nat.mul-div-mul_right a 4 h

over_itself : (q d : ℕ) → 0 < d → (q * d) / d ≡ q
over_itself q d h =
    ap (λ (k : ℕ). (q * d) / k) (omega arith) ∙ Nat.mul-div-mul_right q 1 h ∙ omega arith

nothing_left : (q d : ℕ) → 0 < d → (q * d) % d ≡ 0
nothing_left q d h =
    Nat.mod-eq-sub-div-mul (q * d) d
    ∙ ap (λ (k : ℕ). q * d - k * d) (over_itself q d h)
    ∙ omega arith

nearest_multiple : (q d : ℕ) → 0 < d → nearest (q * d) d ≡ q
unfolding nearest
nearest_multiple q d h = rw (over_itself q d h, nothing_left q d h) (ground (arith, h))

regroup : (t c b p : ℕ) → (t * (c * b)) * (4 * p) ≡ ((t * c) * p) * (4 * b)
regroup t c b p = grind arith

grouped : (t c b : ℕ) → t * (c * b) ≡ (t * c) * b
grouped t c b = grind arith

times_one : (n : ℕ) → n * 2 ^ 0 ≡ n
times_one n = omega arith

zero_factor : (a b : ℕ) → 0 < b → a * b ≡ 0 → a ≡ 0
zero_factor zero b p h = refl
zero_factor (suc a) b p h =
    absurd (omega (arith, h, Nat.mul-pos {m = suc a} {n = b} (omega arith) p))

rounded_exact :
    (n d e q : ℕ)
    → doublings 1100 n d ≡ e
    → excess 1100 (n / d) ≡ 0
    → nearest (n * 2 ^ e) d ≡ q
    → rounded false n d ≡ (if n == 0 then finite (pos 0) 0 else finite (pos q) e)
unfolding rounded
rounded_exact n d e q a b h =
    let same : nearest (n * 2 ^ e) (d * 2 ^ 0) * 2 ^ 0 ≡ q =
      ap (λ (k : ℕ). nearest (n * 2 ^ e) k * 2 ^ 0) (times_one d)
      ∙ times_one (nearest (n * 2 ^ e) d)
      ∙ h in
    rw (a, b) (ap (λ (m : ℕ). if n == 0 then finite (pos 0) 0 else finite (pos m) e) same)

floor_halves :
    (n a e : ℕ)
    → (n ≡ 0 → a ≡ 0)
    → floor (if n == 0 then finite (pos 0) 0 else finite (pos (a * 2 ^ e)) (suc (suc e)))
      ≡ finite (pos (a / 4)) 0
unfolding floor
floor_halves n a e h = elim (Bool-cases (n == 0)) [
  | inl z ↦ rw (z, h (ground (arith, z))) refl
  | inr z ↦ rw z (
      ap (λ (k : ℕ). finite (pos k) 0)
        (ap (λ (k : ℕ). (a * 2 ^ e) / k) (power e) ∙ cancel a (2 ^ e) (positive e)))
]

-- A product t * (c * b) / (4 * b) below 2^50 is not rounded, so that its floor is t * c / 4.
floor_product :
    (t c b : ℕ)
    → 0 < b
    → t * c < 4503599627370496
    → floor (rounded false (t * (c * b)) (4 * b)) ≡ finite (pos ((t * c) / 4)) 0
floor_product t c b p h =
    let (e, d) = doubled_twice 1098 (t * (c * b)) (4 * b) (few t c b p h) in
    ap floor (
      rounded_exact (t * (c * b)) (4 * b) (suc (suc e)) ((t * c) * 2 ^ e) d
        (excess_small 1100 ((t * (c * b)) / (4 * b)) (small t c b p h)) (kept t c b e p))
    ∙ floor_halves (t * (c * b)) (t * c) e (none_left t c b p)
  where
    few : (t c b : ℕ) → 0 < b → t * c < 4503599627370496 → t * (c * b) < 1125899906842624 * (4 * b)
    few t c b p h = omega (arith, grouped t c b, Nat.mul-lt-mul_of_pos_right {k = b} h p)

    small :
        (t c b : ℕ) → 0 < b → t * c < 4503599627370496 → (t * (c * b)) / (4 * b) < 9007199254740992
    small t c b p h =
        rw (ap (λ (n : ℕ). n / (4 * b)) (grouped t c b) ∙ cancel (t * c) b p) (omega (arith, h))

    kept :
        (t c b e : ℕ) → 0 < b → nearest ((t * (c * b)) * 2 ^ suc (suc e)) (4 * b) ≡ (t * c) * 2 ^ e
    kept t c b e p =
        ap (λ (n : ℕ). nearest ((t * (c * b)) * n) (4 * b)) (power e)
        ∙ ap (λ (n : ℕ). nearest n (4 * b)) (regroup t c b (2 ^ e))
        ∙ nearest_multiple ((t * c) * 2 ^ e) (4 * b) (omega (arith, p))

    none_left : (t c b : ℕ) → 0 < b → t * (c * b) ≡ 0 → t * c ≡ 0
    none_left t c b p z = zero_factor (t * c) b p (sym (grouped t c b) ∙ z)

times_share :
    (t k b c : ℕ)
    → mul (finite (pos t) 0) (finite (pos (c * b)) k) ≡ rounded false (t * (c * b)) (2 ^ k)
unfolding mul
times_share t k b c =
    let one : t + 0 ≡ t = omega arith in
    let two : c * b + 0 ≡ c * b = omega arith in
    let three : 0 + k ≡ k = omega arith in
    ap (λ (x : ℕ). rounded false (x * (c * b + 0)) (2 ^ (0 + k))) one
    ∙ ap (λ (x : ℕ). rounded false (t * x) (2 ^ (0 + k))) two
    ∙ ap (λ (x : ℕ). rounded false (t * (c * b)) (2 ^ x)) three

small_to_int : (n : ℕ) → n < 9007199254740992 → to_int (finite (pos n) 0) ≡ pos n
small_to_int n h =
    sym (ap to_int (of_int_exact (pos n) (omega (arith, h))))
    ∙ to_int-of_int (pos n) (omega (arith, h))

share_of :
    (t percent c b k : ℕ)
    → div (of_int (pos percent)) (of_int (pos 100)) ≡ finite (pos (c * b)) k
    → 2 ^ k ≡ 4 * b
    → 0 < b
    → t * c < 4503599627370496
    → t < 9007199254740992
    → share (pos t) (pos percent) ≡ pos ((t * c) / 4)
unfolding share
share_of t percent c b k e q p h small =
    ap (λ (x : Float64). to_int (floor (mul x (div (of_int (pos percent)) (of_int (pos 100))))))
      (of_int_exact (pos t) (omega (arith, small)))
    ∙ ap (λ (x : Float64). to_int (floor (mul (finite (pos t) 0) x))) e
    ∙ ap (λ (x : Float64). to_int (floor x)) (times_share t k b c)
    ∙ ap (λ (x : ℕ). to_int (floor (rounded false (t * (c * b)) x))) q
    ∙ ap to_int (floor_product t c b p h)
    ∙ small_to_int ((t * c) / 4) (omega (arith, h))

-- 25, 50, 75 and 100.
abbrev pub percent_of : ℕ → ℕ
percent_of q = 25 * q

-- For a quarter, a half, three quarters and the whole of at most 2^50 members the share is exact.
pub share_exact :
    (t q : ℕ)
    → 0 < q
    → q ≤ 4
    → t < 1125899906842624
    → share (pos t) (pos (percent_of q)) ≡ pos ((t * percent_of q) / 100)
share_exact t zero p b h = absurd (omega arith)
share_exact t (suc zero) p b h =
    share_of t 25 1 4503599627370496 54 quarter refl (omega arith) (omega arith) (omega arith)
    ∙ ap (λ (n : ℕ). pos n) (omega arith)
share_exact t (suc (suc zero)) p b h =
    share_of t 50 2 2251799813685248 53 half refl (omega arith) (omega arith) (omega arith)
    ∙ ap (λ (n : ℕ). pos n) (omega arith)
share_exact t (suc (suc (suc zero))) p b h =
    share_of t 75 3 2251799813685248 53 three_quarters refl (omega arith) (omega arith)
      (omega arith)
    ∙ ap (λ (n : ℕ). pos n) (omega arith)
share_exact t (suc (suc (suc (suc zero)))) p b h =
    share_of t 100 4 1125899906842624 52 whole refl (omega arith) (omega arith) (omega arith)
    ∙ ap (λ (n : ℕ). pos n) (omega arith)
share_exact t (suc (suc (suc (suc (suc q))))) p b h = absurd (omega arith)
