-- ===== src/Go/Digits.antt =====
-- ParseInt reads back what FormatInt prints.

use go_leaderboard.Base.{
  ℕ, zero, suc, ◌+◌, ◌-◌, ◌*◌, ◌/◌, ◌%◌, ◌<◌, ◌≡◌, refl, ap, ◌∙◌, arith, Bool, ltb→lt, ltb, true,
  false, none, some, [], ◌∷◌, Bool-cases, inl, inr, ◌≢◌, if◌then◌else◌,
}
use go_leaderboard.Base.Int.{ℤ, pos, negsuc, sub_ℕ}
use go_leaderboard.Base.Bytes.{Text}
use go_leaderboard.Go.Word.{half64, IsInt64}
use go_leaderboard.Go.Strconv.{
  digits, digits_value, format_int, parse_int, signed_value, is_digit, range,
}

is_digit_digit : (d : ℕ) → d < 10 → is_digit (48 + d) ≡ true
is_digit_digit d h = ground arith

shorter : (f n : ℕ) → ltb n 10 ≡ false → n < suc f → n / 10 < f
shorter f n e h = ground arith

-- One digit in front of a text.
digits_value-cons :
    (n d : ℕ) (t : Text) → d < 10 → digits_value n ((48 + d) ∷ t) ≡ digits_value (n * 10 + d) t
unfolding digits_value
digits_value-cons n d t h = rw (is_digit_digit d h) (ap (λ (m : ℕ). digits_value m t) (omega arith))

digits_value-digits :
    (f n : ℕ) (acc : Text) → n < f → digits_value 0 (digits f n acc) ≡ digits_value n acc
unfolding digits
digits_value-digits zero n acc h = elim h [ ]
digits_value-digits (suc f) n acc h = elim (Bool-cases (ltb n 10)) [
  | inl e ↦
      rw (e, digits)
        (digits_value-cons 0 n acc (ltb→lt n 10 e)
          ∙ ap (λ (m : ℕ). digits_value m acc) (omega arith))
  | inr e ↦
      rw (e, digits)
        (digits_value-digits f (n / 10) ((48 + n % 10) ∷ acc) (shorter f n e h)
          ∙ digits_value-cons (n / 10) (n % 10) acc (omega arith)
          ∙ ap (λ (m : ℕ). digits_value m acc) (omega arith))
]

digits-ne-nil : (f n : ℕ) (acc : Text) → n < f → digits f n acc ≢ []
unfolding digits
digits-ne-nil zero n acc h = elim h [ ]
digits-ne-nil (suc f) n acc h = elim (Bool-cases (ltb n 10)) [
  | inl e ↦ rw (e, digits) (λ p. cc)
  | inr e ↦ rw (e, digits) (digits-ne-nil f (n / 10) ((48 + n % 10) ∷ acc) (shorter f n e h))
]

digits_lem : (n : ℕ) → digits_value 0 (digits (suc n) n []) ≡ some n
digits_lem n = digits_value-digits (suc n) n [] (omega arith) ∙ unfold digits_value in refl

-- A text of digits has no sign.
pub parse-unsigned :
    (t : Text) (n half : ℕ)
    → t ≢ []
    → digits_value 0 t ≡ some n
    → parse_int half t ≡ signed_value half false t
parse-unsigned [] n half ne h = absurd (ne refl)
parse-unsigned (c ∷ s) n half ne h = unfold parse_int digits_value in ground arith

pub signed_value_lem :
    (t : Text) (n half : ℕ) (neg : Bool)
    → t ≢ []
    → digits_value 0 t ≡ some n
    → signed_value half neg t ≡ (
        if neg
        then (if ltb half n then (sub_ℕ 0 half, some range) else (sub_ℕ 0 n, none))
        else (if ltb n half then (pos n, none) else (pos (half - 1), some range)))
unfolding signed_value
signed_value_lem [] n half neg ne h = absurd (ne refl)
signed_value_lem (c ∷ s) n half neg ne h = rw (h, signed_value)

-- Reading a printed 64-bit integer gives the integer, and no error.
pub parse_int-format_int : (z : ℤ) → IsInt64 z → parse_int half64 (format_int z) ≡ (z, none)
unfolding format_int
parse_int-format_int (pos n) b =
    parse-unsigned _ n half64 (digits-ne-nil (suc n) n [] (omega arith)) (digits_lem n)
    ∙ signed_value_lem _ n half64 false (digits-ne-nil (suc n) n [] (omega arith)) (digits_lem n)
    ∙ ground arith
parse_int-format_int (negsuc n) b =
    unfold parse_int in
    (signed_value_lem _ (suc n) half64 true (digits-ne-nil (suc (suc n)) (suc n) [] (omega arith))
        (digits_lem (suc n))
      ∙ ground arith)
