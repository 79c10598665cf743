-- ===== src/Go/Format.antt =====
-- fmt.Sprintf of a format without arguments: what becomes of the bytes after a "%".
use go_leaderboard.Base.{
  ℕ, zero, suc, ◌+◌, ◌-◌, ◌*◌, ◌≡◌, refl, ap, arith, ltb, leb, ◌==◌, ◌&&◌, ◌||◌, not, Bool, true,
  false, if◌then◌else◌, Option, none, some, [], ◌∷◌, ◌++◌, length, Bool-cases, inl, inr,
}
use go_leaderboard.Base.Bytes.{Text, codes}
use go_leaderboard.Go.Strconv.{is_digit}

-- The flags "#", "0", "+", "-" and the blank.
is_flag : ℕ → Bool
is_flag c = (c == b'#') || ((c == b'0') || ((c == b'+') || ((c == b'-') || (c == b' '))))

skip_flags : Text → Text
unfolding is_flag
skip_flags [] = []
skip_flags (c ∷ s) = let rest = skip_flags s in if is_flag c then rest else c ∷ s

-- A number at the front, its digits skipped; a number above a million makes the rest of the text
-- useless.
skip_number : ℕ → Text → Text
skip_number n [] = []
skip_number n (c ∷ s) =
    let rest = skip_number (n * 10 + (c - 48)) s in
    if is_digit c then (if ltb 1000000 n then [] else rest) else c ∷ s

-- Digits up to a "]", of a number that is not too large.
is_index : ℕ → Bool → Text → Bool
is_index n filled [] = false
is_index n filled (c ∷ s) =
    let rest = is_index (n * 10 + (c - 48)) true s in
    if c == b']' then filled else (is_digit c && (not (ltb 1000000 n) && rest))

-- Behind the first "]", if there is one.
behind_bracket : Text → Option Text
behind_bracket [] = none
behind_bracket (c ∷ s) = let rest = behind_bracket s in if c == b']' then some s else rest

-- The index of an argument, "[n]", which no argument has: the rest, whether it is one, and whether
-- there was a "[".
index : Text → Text × Bool × Bool
unfolding is_index behind_bracket
index [] = ([], false, false)
index (c ∷ s) =
    if c == b'['
    then elim (behind_bracket s) [
      | none ↦ (s, false, true)
      | some r ↦
          (if ltb (length s) 2 then s else r, not (ltb (length s) 2) && is_index 0 false s, true)
    ]
    else (c ∷ s, false, false)

-- "*" takes a width or a precision from an argument that is missing.
star_or_number : Text → Text → Text × Text × Bool
unfolding skip_number
star_or_number bad [] = ([], [], false)
star_or_number bad (c ∷ s) =
    let rest = skip_number 0 (c ∷ s) in if c == b'*' then (bad, s, true) else ([], rest, false)

-- The bytes of one rune in UTF-8, and those of the error rune if there is none.
continues : ℕ → ℕ → Text → Bool
continues low high [] = false
continues low high (c ∷ s) = leb low c && leb c high

drop_one : Text → Text
drop_one [] = []
drop_one (c ∷ s) = s

rune : ℕ → Text → Text × Text
unfolding continues drop_one
rune c s =
    let bad : Text × Text = (239 ∷ 191 ∷ 189 ∷ [], s) in
    let taken1 : Text × Text = (c ∷ front 1 s, behind 1 s) in
    let taken2 : Text × Text = (c ∷ front 2 s, behind 2 s) in
    let taken3 : Text × Text = (c ∷ front 3 s, behind 3 s) in
    let low = if c == 224 then 160 else if c == 240 then 144 else 128 in
    let high = if c == 237 then 159 else if c == 244 then 143 else 191 in
    let first = continues low high s in
    let second = continues 128 191 (behind 1 s) in
    let third = continues 128 191 (behind 2 s) in
    if ltb c 128
    then (c ∷ [], s)
    else if leb 194 c && leb c 223
    then (if first then taken1 else bad)
    else if leb 224 c && leb c 239
    then (if first && second then taken2 else bad)
    else if leb 240 c && leb c 244
    then (if first && (second && third) then taken3 else bad)
    else bad
  where
    front : ℕ → Text → Text
    front zero s = []
    front (suc n) [] = []
    front (suc n) (c ∷ s) = c ∷ front n s

    behind : ℕ → Text → Text
    behind zero s = s
    behind (suc n) [] = []
    behind (suc n) (c ∷ s) = behind n s

-- The verb itself: "%" is itself, any other is an error.
verb : Bool → Text → Text × Text
unfolding rune
verb bad_index [] = (codes "%!(NOVERB)", [])
verb bad_index (c ∷ s) =
    let (r, rest) = rune c s in
    let what = if bad_index then codes "(BADINDEX)" else codes "(MISSING)" in
    if c == b'%' then (codes "%", s) else (codes "%!" ++ (r ++ what), rest)

-- Behind a width, a point and a precision.
after_width : Bool → Bool → Text → Text × Text
unfolding verb index star_or_number
after_width after bad [] = verb bad []
after_width after bad (c ∷ s) =
    let (r, after', bad') = index s in
    let (out, r', star) = star_or_number (codes "%!(BADPREC)") r in
    let (r'', _, bad'') = index r' in
    let (t, _, bad3) = index (c ∷ s) in
    let last : Text × Text =
      if after' && not star
      then verb (bad || (bad' || after)) r'
      else verb (bad || (bad' || (after || bad''))) r'' in
    let whole : Text × Text = (out ++ last.0, last.1) in
    if c == b'.' then whole else if after then verb bad (c ∷ s) else verb (bad || bad3) t

-- What follows a "%": what is written for it, and the rest.
directive : Text → Text × Text
unfolding after_width skip_flags
directive s =
    let (r, after, bad) = index (skip_flags s) in
    let (out, r', star) = star_or_number (codes "%!(BADWIDTH)") r in
    let (v, rest) = after_width (after && not star) bad r' in (out ++ v, rest)

-- The bytes of a directive are skipped one by one.
formatted : ℕ → Text → Text
unfolding directive
formatted n [] = []
formatted (suc n) (c ∷ s) = formatted n s
formatted zero (c ∷ s) =
    let (out, rest) = directive s in
    let plain = c ∷ formatted zero s in
    let written = out ++ formatted (length s - length rest) s in
    if c == b'%' then written else plain

unfoldable pub sprintf : Text → Text
unfolding formatted
sprintf s = formatted zero s

abbrev pub no_percent : Text → Bool
no_percent [] = true
no_percent (c ∷ s) = let rest = no_percent s in if c == b'%' then false else rest

abbrev pub HasNoPercent : Text → Type 0
HasNoPercent s = no_percent s ≡ true

formatted_plain : (s : Text) → HasNoPercent s → formatted zero s ≡ s
unfolding formatted
formatted_plain [] h = refl
formatted_plain (c ∷ s) h = elim (Bool-cases (c == b'%')) [
  | inl e ↦ absurd (ground (arith, e, h))
  | inr e ↦ rw (e, formatted) (ap (λ (t : Text). c ∷ t) (formatted_plain s (ground (arith, e, h))))
]

-- A format without a "%" is itself.
pub sprintf_plain : (s : Text) → HasNoPercent s → sprintf s ≡ s
unfolding sprintf
sprintf_plain s h = formatted_plain s h
