-- ===== src/Go/Json/Parse.antt =====
-- The reading of a text as a value, none if it is no JSON. Each round takes a byte or goes down one
-- level on one, so that twice the length of the text is enough.
use go_leaderboard.Base.{
  ℕ, zero, suc, ◌+◌, ◌-◌, ◌*◌, ◌/◌, ◌%◌, ltb, leb, ◌==◌, ◌&&◌, ◌||◌, Bool, true, false,
  if◌then◌else◌, Option, none, some, [], ◌∷◌, ◌++◌, length,
}
use go_leaderboard.Base.Bytes.{Text, codes}
use go_leaderboard.Go.Strconv.{is_digit}
use go_leaderboard.Go.Json.{
  Json, Items, Fields, null, bool, num, str, arr, obj, end, item, done, field,
}

-- The value read and the text after it.
abbrev Read : Type 0 → Type 0
Read A = Option (A × Text)

infixl 5 ◌>>=◌
abbrev ◌>>=◌ : {A B : Type 0} → Option A → (A → Option B) → Option B
none >>= f = none
some a >>= f = f a

is_space : ℕ → Bool
is_space c = (c == 32) || ((c == 9) || ((c == 10) || (c == 13)))

skip : Text → Text
unfolding is_space
skip [] = []
skip (c ∷ s) = let rest = skip s in if is_space c then rest else c ∷ s

literal : Text → Json → Text → Read Json
literal [] v s = some (v, s)
literal (c ∷ w) v [] = none
literal (c ∷ w) v (x ∷ s) = let rest = literal w v s in if x == c then rest else none

-- The digits in front, and the text after them.
digits_of : Text → Text × Text
digits_of [] = ([], [])
digits_of (c ∷ s) = let (d, r) = digits_of s in if is_digit c then (c ∷ d, r) else ([], c ∷ s)

some_digits : Text → Read Text
unfolding digits_of
some_digits s = let (d, r) = digits_of s in if length d == 0 then none else some (d, r)

-- 0, or digits of which the first is not 0.
whole : Text → Read Text
unfolding some_digits
whole [] = none
whole (c ∷ s) = if c == b'0' then some (c ∷ [], s) else some_digits (c ∷ s)

fraction : Text → Read Text
unfolding some_digits
fraction [] = some ([], [])
fraction (c ∷ s) =
    if c == b'.' then (some_digits s >>= λ (d, r). some (c ∷ d, r)) else some ([], c ∷ s)

sign : Text → Text × Text
sign [] = ([], [])
sign (c ∷ s) = if (c == b'+') || (c == b'-') then (c ∷ [], s) else ([], c ∷ s)

exponent : Text → Read Text
unfolding some_digits sign
exponent [] = some ([], [])
exponent (c ∷ s) =
    if (c == b'e') || (c == b'E')
    then (let (g, t) = sign s in (some_digits t >>= λ (d, r). some (c ∷ g ++ d, r)))
    else some ([], c ∷ s)

unsigned : Text → Read Text
unfolding whole fraction exponent
unsigned s = do
  (a, s1) ← whole s
  (b, s2) ← fraction s1
  (c, s3) ← exponent s2
  some (a ++ (b ++ c), s3)

number : ℕ → Text → Read Json
unfolding unsigned
number c s =
    if c == b'-'
    then (unsigned s >>= λ (t, r). some (num (c ∷ t), r))
    else (unsigned (c ∷ s) >>= λ (t, r). some (num t, r))

hex_value : ℕ → Option ℕ
hex_value c =
    if is_digit c
    then some (c - 48)
    else if leb b'a' c && leb c b'f'
    then some (c - 87)
    else if leb b'A' c && leb c b'F'
    then some (c - 55)
    else none

four_hex : Text → Read ℕ
unfolding hex_value
four_hex (a ∷ b ∷ c ∷ d ∷ s) = do
  a ← hex_value a
  b ← hex_value b
  c ← hex_value c
  d ← hex_value d
  some (((a * 16 + b) * 16 + c) * 16 + d, s)
four_hex _ = none

utf8 : ℕ → Text
utf8 c =
    if ltb c 0x80
    then c ∷ []
    else if ltb c 0x800
    then (0xc0 + c / 64) ∷ (0x80 + c % 64) ∷ []
    else if ltb c 0x10000
    then (0xe0 + c / 4096) ∷ (0x80 + c / 64 % 64) ∷ (0x80 + c % 64) ∷ []
    else (0xf0 + c / 262144) ∷ (0x80 + c / 4096 % 64) ∷ (0x80 + c / 64 % 64) ∷ (0x80 + c % 64) ∷ []

-- The low half of a surrogate pair, if one follows.
low_half : Text → Read ℕ
unfolding four_hex
low_half (x ∷ y ∷ s) =
    if (x == 92) && (y == b'u')
    then (four_hex s >>= λ (d, r). if leb 0xdc00 d && ltb d 0xe000 then some (d, r) else none)
    else none
low_half _ = none

-- A lone half of a pair becomes U+FFFD.
code_point : ℕ → Text → Text × Text
unfolding low_half utf8
code_point c s =
    if leb 0xd800 c && ltb c 0xdc00
    then elim (low_half s) [
      | none ↦ (utf8 0xfffd, s)
      | some (d, r) ↦ (utf8 (0x10000 + (c - 0xd800) * 1024 + (d - 0xdc00)), r)
    ]
    else if leb 0xdc00 c && ltb c 0xe000
    then (utf8 0xfffd, s)
    else (utf8 c, s)

-- What stands for the text after a backslash.
escape : Text → Read Text
unfolding code_point four_hex
escape [] = none
escape (c ∷ s) =
    if (c == b'"') || ((c == 92) || (c == b'/'))
    then some (c ∷ [], s)
    else if c == b'n'
    then some (10 ∷ [], s)
    else if c == b'r'
    then some (13 ∷ [], s)
    else if c == b't'
    then some (9 ∷ [], s)
    else if c == b'b'
    then some (8 ∷ [], s)
    else if c == b'f'
    then some (12 ∷ [], s)
    else if c == b'u'
    then (four_hex s >>= λ (n, r). some (code_point n r))
    else none

chars : ℕ → Text → Read Text
unfolding escape
chars zero s = none
chars (suc f) [] = none
chars (suc f) (c ∷ s) =
    let plain = (chars f s >>= λ (t, r). some (c ∷ t, r)) in
    let escaped = (escape s >>= λ (e, s'). chars f s' >>= λ (t, r). some (e ++ t, r)) in
    if c == b'"'
    then some ([], s)
    else if c == 92
    then escaped
    else if ltb c 32
    then none
    else plain

-- One byte, after the spaces in front of it.
expect : ℕ → Text → Option Text
unfolding skip
expect b s = elim (skip s) [ [] ↦ none | c ∷ r ↦ if c == b then some r else none ]

mutual
  unfolding skip literal number chars expect

  value : ℕ → Text → Read Json
  value zero s = none
  value (suc f) s = start f (skip s)

  start : ℕ → Text → Read Json
  start f [] = none
  start zero (c ∷ s) = none
  start (suc f) (c ∷ s) =
      let array = (first_item f s >>= λ (vs, r). some (arr vs, r)) in
      let object = (first_field f s >>= λ (fs, r). some (obj fs, r)) in
      if c == b'"'
      then (chars (suc f) s >>= λ (t, r). some (str t, r))
      else if c == b'['
      then array
      else if c == b'{'
      then object
      else if c == b'n'
      then literal (codes "ull") null s
      else if c == b't'
      then literal (codes "rue") (bool true) s
      else if c == b'f'
      then literal (codes "alse") (bool false) s
      else number c s

  first_item : ℕ → Text → Read Items
  first_item zero s = none
  first_item (suc f) s =
      let some_items =
        (value f s >>= λ (v, r). next_item f r >>= λ (vs, r'). some (item v vs, r')) in
      elim (expect b']' s) [ some r ↦ some (end, r) | none ↦ some_items ]

  next_item : ℕ → Text → Read Items
  next_item zero s = none
  next_item (suc f) s =
      let more =
        (expect b',' s >>= λ t.
        value f t >>= λ (v, r). next_item f r >>= λ (vs, r'). some (item v vs, r')) in
      elim (expect b']' s) [ some r ↦ some (end, r) | none ↦ more ]

  first_field : ℕ → Text → Read Fields
  first_field zero s = none
  first_field (suc f) s =
      let some_fields = one_field f s in
      elim (expect b'}' s) [ some r ↦ some (done, r) | none ↦ some_fields ]

  one_field : ℕ → Text → Read Fields
  one_field zero s = none
  one_field (suc f) s = expect b'"' s >>= λ t. chars (suc f) t >>= λ (k, r). expect b':' r >>= λ t'.
      value f t' >>= λ (v, r'). next_field f r' >>= λ (fs, r''). some (field k v fs, r'')

  next_field : ℕ → Text → Read Fields
  next_field zero s = none
  next_field (suc f) s =
      let more = (expect b',' s >>= λ t. one_field f t) in
      elim (expect b'}' s) [ some r ↦ some (done, r) | none ↦ more ]

-- Nothing but spaces may follow the value.
unfoldable pub parse : Text → Option Json
unfolding value skip
parse s = value (4 * length s + 4) s >>= λ (v, r). elim (skip r) [ [] ↦ some v | c ∷ t ↦ none ]
