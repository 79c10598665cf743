-- ===== src/Go/Strconv.antt =====
-- strconv.FormatInt and strconv.ParseInt in base 10, and strings.Split at a comma.
use go_leaderboard.Base.{
  ℕ, zero, suc, ◌+◌, ◌-◌, ◌*◌, ◌/◌, ◌%◌, ltb, leb, ◌==◌, Bool, true, false, if◌then◌else◌, ◌&&◌,
  Option, none, some, List, [], ◌∷◌,
}
use go_leaderboard.Base.Int.{ℤ, pos, negsuc, sub_ℕ}
use go_leaderboard.Base.Bytes.{Text}

-- The digits of n before those of `acc`; n + 1 rounds are enough.
unfoldable pub digits : ℕ → ℕ → Text → Text
digits zero n acc = acc
digits (suc f) n acc = elim (ltb n 10) [
  | true ↦ (48 + n) ∷ acc
  | false ↦ digits f (n / 10) ((48 + n % 10) ∷ acc)
]

unfoldable pub format_int : ℤ → Text
unfolding digits
format_int (pos n) = digits (suc n) n []
format_int (negsuc n) = b'-' ∷ digits (suc (suc n)) (suc n) []

abbrev pub is_digit : ℕ → Bool
is_digit c = leb b'0' c && leb c b'9'

-- The value of a text of digits, none if it holds anything else.
unfoldable pub digits_value : ℕ → Text → Option ℕ
digits_value acc [] = some acc
digits_value acc (c ∷ s) =
    let rest = digits_value (acc * 10 + (c - 48)) s in if is_digit c then rest else none

-- ParseInt gives a value also beside an error: 0 for bad syntax, the nearest bound out of range.
pub data ParseError : Type 0 where
  syntax range : ParseError

unfoldable pub signed_value : ℕ → Bool → Text → ℤ × Option ParseError
unfolding digits_value
signed_value half neg [] = (pos 0, some syntax)
signed_value half neg (c ∷ s) = elim (digits_value 0 (c ∷ s)) [
  | none ↦ (pos 0, some syntax)
  | some n ↦
      if neg
      then (if ltb half n then (sub_ℕ 0 half, some range) else (sub_ℕ 0 n, none))
      else (if ltb n half then (pos n, none) else (pos (half - 1), some range))
]

-- ParseInt(s, 10, bits), with `half` 2 ^ (bits - 1)
unfoldable pub parse_int : ℕ → Text → ℤ × Option ParseError
unfolding signed_value
parse_int half [] = (pos 0, some syntax)
parse_int half (c ∷ s) =
    if c == b'-'
    then signed_value half true s
    else if c == b'+'
    then signed_value half false s
    else signed_value half false (c ∷ s)

-- The text before the first comma and, if there is one, the text after it.
unfoldable pub add_head : ℕ → List Text → List Text
add_head c [] = (c ∷ []) ∷ []
add_head c (t ∷ ts) = (c ∷ t) ∷ ts

-- strings.Split(s, ",")
unfoldable pub split : Text → List Text
unfolding add_head
split [] = [] ∷ []
split (c ∷ s) = let rest = split s in if c == b',' then [] ∷ rest else add_head c rest
