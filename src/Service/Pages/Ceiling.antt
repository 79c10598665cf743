-- ===== src/Service/Pages/Ceiling.antt =====
-- The page count, computed in float64, is the exact ceiling.
use go_leaderboard.Base.{
  ℕ, zero, suc, ◌+◌, ◌-◌, ◌*◌, ◌/◌, ◌%◌, ◌^◌, ◌≤◌, ◌<◌, ◌≡◌, refl, ◌∙◌, ap, subst, sym, arith, ltb,
  ◌==◌, Bool-cases, inl, inr, false,
}
use native.Mathlib.Nat.{
  pow-suc, div-add-mod', mod-lt, mul-div_cancel, mul-mod_left, le-div_iff_mul-le, mul-le-mul_right,
  div-le_self, div-eq_of_lt, div-le_of_le-mul, add-zero,
}
use native.Mathlib.Decide.{dec_lt}
use go_leaderboard.Base.Int.{pos}
use go_leaderboard.Go.Float.{
  doublings, nearest, up, rounded, finite, div, excess_small, of_int_exact, ceil, to_int,
}
use go_leaderboard.Service.Pages.{pages}

abbrev c52 : ℕ
c52 = 4503599627370496

abbrev pub c53 : ℕ
c53 = 9007199254740992

pow-double : (n k : ℕ) → n * 2 ^ suc k ≡ 2 * n * 2 ^ k
pow-double n k = rw pow-suc (omega arith)

doublings-enough : (f n d : ℕ) → c52 * d ≤ n * 2 ^ f → c52 * d ≤ n * 2 ^ doublings f n d
unfolding doublings
doublings-enough zero n d h = h
doublings-enough (suc f) n d h = elim (Bool-cases (ltb n (c52 * d))) [
  | inl e ↦
      rw (e, doublings)
        (rw (pow-double n (doublings f (2 * n) d))
          (doublings-enough f (2 * n) d (rw pow-double at h)))
  | inr e ↦ rw (e, doublings) (ground arith)
]

-- The rounding, by the remainder.
nearest-div : (n d : ℕ) → n % d ≡ 0 → 0 < d → nearest n d ≡ n / d
unfolding nearest
nearest-div n d e p = ground arith

nearest-near : (n d : ℕ) → (n / d ≤ nearest n d) × (nearest n d ≤ n / d + 1)
unfolding nearest
nearest-near n d = ground arith

nearest-above : (n d : ℕ) → d < 2 * (n % d) → nearest n d ≡ n / d + 1
unfolding nearest
nearest-above n d h = ground arith

nearest-le : (n d k : ℕ) → 0 < d → n ≤ k * d → nearest n d ≤ k
nearest-le n d k p h = elim (dec_lt (n / d) k) [
  | yes lt ↦ omega (arith, nearest-near n d)
  | no ge ↦ subst (λ (m : ℕ). nearest m d ≤ k) (sym (whole ge)) (omega (arith, at_multiple))
]
  where
    whole : ¬ (n / d < k) → n ≡ k * d
    whole ge = omega (arith, (le-div_iff_mul-le {x = k} {y = n} p).0 (omega arith))

    at_multiple : nearest (k * d) d ≡ k
    at_multiple = nearest-div (k * d) d (mul-mod_left k d) p ∙ mul-div_cancel k p

nearest-gt :
    (n q r p d : ℕ) → n ≡ q * p * d + r * p → 0 < r → 0 < d → d < 2 * p → q * p < nearest n d
nearest-gt n q r p d e hr hd hp = elim (dec_lt (q * p) (n / d)) [
  | yes lt ↦ omega (arith, nearest-near n d)
  | no ge ↦ omega (arith, nearest-above n d (grind (arith, remainder ge)), quotient ge)
]
  where
    quotient : ¬ (q * p < n / d) → n / d ≡ q * p
    quotient ge = omega (arith, (le-div_iff_mul-le {x = q * p} {y = n} hd).1 (omega arith))

    remainder : ¬ (q * p < n / d) → n % d ≡ r * p
    remainder ge = omega (arith, div-add-mod' n d, ap (λ (t : ℕ). t * d) (quotient ge))

up-between : (m p k : ℕ) → k * p < m → m ≤ suc k * p → up m p ≡ suc k
up-between m p k h l = grind (arith, div-add-mod' m p, mod-lt)

up-exact : (p k : ℕ) → 0 < p → up (k * p) p ≡ k
up-exact p k h = grind (arith, mul-div_cancel, mul-mod_left)

-- n / d rounded up.
abbrev pub ceil_div : ℕ → ℕ → ℕ
ceil_div n d = (n + d - 1) / d

bounded : (n : ℕ) → n < c53 → n ≤ c53 - 1
bounded n h = omega arith

rest_small : (n d : ℕ) → 0 < d → n % d ≤ d
rest_small n d h = omega arith

not_zero : (n : ℕ) → 0 < n → (n == 0) ≡ false
not_zero n h = ground arith

times_one : (n : ℕ) → n * 1 ≡ n
times_one n = omega arith

by_one : (n d : ℕ) → nearest n (d * 1) * 1 ≡ nearest n d
by_one n d = rw (times_one d) (times_one _)

sum-le-product : (n d : ℕ) → 0 < n → 0 < d → n + d - 1 ≤ d * n
sum-le-product zero d p q = absurd (omega arith)
sum-le-product (suc a) zero p q = absurd (omega arith)
sum-le-product (suc a) (suc b) p q = omega arith

no_pages : (d : ℕ) → 0 < d → to_int (ceil (div (finite (pos 0) 0) (finite (pos d) 0))) ≡ pos 0
unfolding to_int ceil div rounded
no_pages d p = rw (add-zero d) (rw (not_zero d p) refl)

to_int_small : (n : ℕ) → n < c53 → to_int (finite (pos n) 0) ≡ pos n
unfolding to_int
to_int_small n h = ground arith

module _ (n d : ℕ) (pn : 0 < n) (pd : 0 < d) (bn : n < c53) (bd : d < c53) where
  scale : ℕ
  scale = 2 ^ doublings 1100 n d

  scale-large : c52 * d ≤ n * scale
  unfolding scale
  scale-large = doublings-enough 1100 n d (omega arith)

  scale-enough : d < 2 * scale
  scale-enough = omega (arith, scale-large, mul-le-mul_right scale (bounded n bn))

  whole : n * scale ≡ n / d * scale * d + n % d * scale
  whole = omega (arith, ap (λ (t : ℕ). t * scale) (div-add-mod' n d))

  ceil_of_rest : 0 < n % d → suc (n / d) ≡ ceil_div n d
  ceil_of_rest r = grind (arith, div-add-mod' n d)

  page_covers : n * scale ≤ suc (n / d) * scale * d
  page_covers = omega (arith, whole, mul-le-mul_right scale (rest_small n d pd))

  even : ¬ (0 < n % d) → nearest (n * scale) d ≡ n / d * scale
  even z =
      subst (λ (t : ℕ). nearest t d ≡ n / d * scale) (sym multiple)
        (nearest-div (n / d * scale * d) d (mul-mod_left (n / d * scale) d) pd
          ∙ mul-div_cancel (n / d * scale) pd)
    where
      multiple : n * scale ≡ n / d * scale * d
      multiple = grind (arith, whole)

  ceil_of_whole : ¬ (0 < n % d) → n / d ≡ ceil_div n d
  ceil_of_whole z = grind (arith, div-add-mod' n d)

  rounds_up : up (nearest (n * scale) d) scale ≡ ceil_div n d
  rounds_up = elim (dec_lt 0 (n % d)) [
    | yes r ↦
        up-between (nearest (n * scale) d) scale (n / d)
          (nearest-gt (n * scale) (n / d) (n % d) scale d whole r pd scale-enough)
          (nearest-le (n * scale) d (suc (n / d) * scale) pd page_covers)
        ∙ ceil_of_rest r
    | no z ↦
        ap (λ (t : ℕ). up t scale) (even z)
        ∙ up-exact scale (n / d) (omega (arith, scale-enough))
        ∙ ceil_of_whole z
  ]

  rounded_lem : rounded false n d ≡ finite (pos (nearest (n * scale) d)) (doublings 1100 n d)
  unfolding rounded scale
  rounded_lem = rw (excess_small 1100 (n / d) (omega (arith, div-le_self n d))) (
      rw (not_zero n pn) (
        ap (λ (m : ℕ). finite (pos m) (doublings 1100 n d))
          (by_one (n * 2 ^ doublings 1100 n d) d)))

  div_lem : div (finite (pos n) 0) (finite (pos d) 0) ≡ rounded false n d
  unfolding div
  div_lem = rw (add-zero d, add-zero n) (rw (not_zero d pd) (rw (times_one n, times_one d)))

  up_lem : ceil (rounded false n d) ≡ finite (pos (ceil_div n d)) 0
  unfolding ceil
  up_lem = rw rounded_lem (ap (λ (m : ℕ). finite (pos m) 0) (unfold scale in rounds_up))

  ceil_small : ceil_div n d ≤ n
  ceil_small = div-le_of_le-mul d (sum-le-product n d pn pd)

  positive : pages (pos n) (pos d) ≡ pos (ceil_div n d)
  positive =
      unfold pages in
      rw (of_int_exact (pos n) (omega arith), of_int_exact (pos d) (omega arith))
        (rw (div_lem, up_lem) (to_int_small _ (omega (arith, ceil_small))))

-- For totals and page sizes below 2^53 and a page size from 1, the number of pages that TotalPages
-- computes in floating point is the quotient rounded up.
pub pages_exact :
    (total size : ℕ)
    → total < c53
    → 0 < size
    → size < c53
    → pages (pos total) (pos size) ≡ pos (ceil_div total size)
pages_exact zero size t p s =
    unfold pages in
    rw (of_int_exact (pos 0) (omega arith), of_int_exact (pos size) (omega arith))
      (no_pages size p ∙ ap (λ (n : ℕ). pos n) (sym (div-eq_of_lt (omega arith))))
pages_exact (suc n) size t p s = positive (suc n) size (omega arith) p t s
