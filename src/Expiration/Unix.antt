-- ===== src/Expiration/Unix.antt =====
-- Names with two Unix times: what GetExpireAt makes of them, and where int32 ends.
use go_leaderboard.Base.{
  ℕ, ◌+◌, ◌-◌, ◌≤◌, ◌<◌, ◌≡◌, ◌≢◌, ◌∙◌, Bool-cases, inl, inr, refl, ap, arith, some, Option, ltb,
  leb, false, if◌then◌else◌, [],
}
use go_leaderboard.Base.Int.{ℤ, pos, sub_ℕ, leb_ℤ}
use go_leaderboard.Base.Effect.{ok, err}
use go_leaderboard.Base.Bytes.{Text}
use go_leaderboard.Go.Word.{◌+w◌, ◌-w◌, half32}
use go_leaderboard.Go.Strconv.{digits_value, ParseError}
use go_leaderboard.Go.Digits.{parse-unsigned, signed_value_lem}
use go_leaderboard.Expiration.Errors.{invalid_duration, leaderboard_expired}
use go_leaderboard.Expiration.Pattern.{find, from_to, digits10}
use go_leaderboard.Expiration.Name.{check_expire_at_errors, get_expire_at, int32_value}

-- A match of the pattern for Unix times, with the values of the two texts.
pub record IsUnixName (name : Text) (m n : ℕ) : Type 0 where
  pub start : Text
  pub end : Text
  pub matches : find (from_to digits10) name ≡ some (start, end)
  pub start_filled : start ≢ []
  pub end_filled : end ≢ []
  pub start_value : digits_value 0 start ≡ some m
  pub end_value : digits_value 0 end ≡ some n

-- The nearest int32.
abbrev clamp : ℕ → ℤ
clamp n = if ltb n half32 then pos n else pos (half32 - 1)

-- The value of a text of digits as an int32: the number, or the largest int32.
int32_value-digits :
    (t : Text) (n : ℕ) → t ≢ [] → digits_value 0 t ≡ some n → int32_value t ≡ clamp n
int32_value-digits t n ne e =
    ap (λ (r : ℤ × Option ParseError). r.0)
      (parse-unsigned t n half32 ne e ∙ signed_value_lem t n half32 false ne e)
    ∙ ground arith

clamp_small : (n : ℕ) → n < half32 → clamp n ≡ pos n
clamp_small n h = ground arith

backward : (m n : ℕ) → n ≤ m → m < half32 → pos n -w pos m ≡ sub_ℕ n m
unfolding ◌-w◌
backward m n h b = ground arith

forward : (m n : ℕ) → m < n → n < half32 → pos n -w pos m ≡ pos (n - m)
unfolding ◌-w◌
forward m n h b = ground arith

onward : (m n : ℕ) → n < half32 → pos n +w pos (n - m) ≡ pos (n + (n - m))
unfolding ◌+w◌
onward m n b = ground arith

check_backward :
    (now : ℤ) (name : Text) (m n : ℕ)
    → n ≤ m
    → m < half32
    → check_expire_at_errors now name (pos m) (pos n) ≡ err (invalid_duration name (sub_ℕ n m))
unfolding check_expire_at_errors
check_backward now name m n h b = rw (backward m n h b) (ground arith)

check_forward :
    (now : ℤ) (name : Text) (m n : ℕ)
    → m < n
    → n < half32
    → check_expire_at_errors now name (pos m) (pos n) ≡ (
        if leb_ℤ (pos (n + (n - m))) now
        then err (leaderboard_expired name)
        else ok (pos (n + (n - m))))
unfolding check_expire_at_errors
check_forward now name m n h b =
    rw (forward m n h b) (rw (onward m n b) (rw (positive_duration m n h) refl))
  where
    positive_duration : (m n : ℕ) → m < n → leb_ℤ (pos (n - m)) (pos 0) ≡ false
    positive_duration m n h = ground arith

module _ (now : ℤ) (name : Text) (m n : ℕ) (u : IsUnixName name m n) where
  as_checked : get_expire_at now name ≡ check_expire_at_errors now name (clamp m) (clamp n)
  unfolding get_expire_at
  as_checked =
      rw (u.matches, get_expire_at)
        (rw (int32_value-digits u.start m u.start_filled u.start_value)
          (rw (int32_value-digits u.end n u.end_filled u.end_value) refl))

  -- A name that ends in two Unix times m and n below 2^31 gives an error of no duration if n is at
  -- most m, an error of an expired leaderboard if n + (n - m) is not after now, and else the
  -- expiration n + (n - m).
  pub unix_name_expiration :
      m < half32
      → n < half32
      → get_expire_at now name ≡ (
          if leb n m
          then err (invalid_duration name (sub_ℕ n m))
          else if leb_ℤ (pos (n + (n - m))) now
          then err (leaderboard_expired name)
          else ok (pos (n + (n - m))))
  unix_name_expiration hm hn =
      as_checked
      ∙ rw (clamp_small m hm, clamp_small n hn)
          (elim (Bool-cases (leb n m)) [
            | inl e ↦ rw e (check_backward now name m n (ground arith) hm)
            | inr e ↦ rw e (check_forward now name m n (ground arith) hn)
          ])

  -- A name that ends in two Unix times from 2^31 on is refused as one of duration 0, whatever the
  -- times and the time now.
  pub unix_name_after_2038 :
      half32 ≤ m → half32 ≤ n → get_expire_at now name ≡ err (invalid_duration name (pos 0))
  unfolding check_expire_at_errors ◌-w◌ ◌+w◌
  unix_name_after_2038 hm hn = as_checked ∙ ground arith
