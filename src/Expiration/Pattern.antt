-- ===== src/Expiration/Pattern.antt =====
-- The four regular expressions of leaderboard/expiration/expiration.go. Each is anchored at the
-- end only, so that the search tries every position from the left.
use go_leaderboard.Base.{
  ℕ, leb, ◌==◌, Bool, ◌&&◌, ◌||◌, if◌then◌else◌, Option, none, some, List, [], ◌∷◌,
}
use go_leaderboard.Base.Bytes.{Text, codes}
use go_leaderboard.Go.Strconv.{is_digit}

-- A matcher eats a part at the front: what it captured and the rest.
infixl 5 ◌>>=◌
abbrev pub ◌>>=◌ : {A B : Type 0} → Option A → (A → Option B) → Option B
none >>= f = none
some a >>= f = f a

abbrev pub digit : ℕ → Bool
digit c = is_digit c

-- [0|1], which takes the bar too
abbrev pub zero_bar_one : ℕ → Bool
zero_bar_one c = (c == b'0') || (c == b'|') || (c == b'1')

-- [0-3]
abbrev pub up_to_three : ℕ → Bool
up_to_three c = leb b'0' c && leb c b'3'

-- A fixed text.
unfoldable pub literal : Text → Text → Option Text
literal [] s = some s
literal (p ∷ ps) [] = none
literal (p ∷ ps) (c ∷ s) = let rest = literal ps s in if p == c then rest else none

-- One byte for each of the classes.
unfoldable pub classes : List (ℕ → Bool) → Text → Option (Text × Text)
classes [] s = some ([], s)
classes (p ∷ ps) [] = none
classes (p ∷ ps) (c ∷ s) =
    let rest = (do (t, r) ← classes ps s; some (c ∷ t, r)) in if p c then rest else none

abbrev pub digits4 : List (ℕ → Bool)
digits4 = digit ∷ digit ∷ digit ∷ digit ∷ []

abbrev pub digits10 : List (ℕ → Bool)
digits10 = digit ∷ digit ∷ digit ∷ digit ∷ digit ∷ digit ∷ digits4

-- [0-9]{4}[0|1][0-9][0-3][0-9]
abbrev pub date8 : List (ℕ → Bool)
date8 = digit ∷ digit ∷ digit ∷ digit ∷ zero_bar_one ∷ digit ∷ up_to_three ∷ digit ∷ []

-- $
abbrev at_end : {A : Type 0} → A → Text → Option A
at_end a [] = some a
at_end a (c ∷ s) = none

-- from(…)to(…)$
unfoldable pub from_to : List (ℕ → Bool) → Text → Option (Text × Text)
unfolding literal classes
from_to ps s = do
  r ← literal (codes "from") s
  (a, r) ← classes ps r
  r ← literal (codes "to") r
  (b, r) ← classes ps r
  at_end (a, b) r

-- year([0-9]{4})$
unfoldable pub yearly : Text → Option Text
unfolding literal classes
yearly s = do r ← literal (codes "year") s; (y, r) ← classes digits4 r; at_end y r

pub data Period : Type 0 where
  week quarter month : Period

-- (week|quarter|month)
unfoldable pub period : Text → Option (Period × Text)
unfolding literal
period s = elim (literal (codes "week") s) [
  | some r ↦ some (week, r)
  | none ↦ elim (literal (codes "quarter") s) [
    | some r ↦ some (quarter, r)
    | none ↦ (do r ← literal (codes "month") s; some (month, r))
  ]
]

-- [0-9]+$
unfoldable pub all_digits : Text → Option Text
all_digits [] = none
all_digits (c ∷ []) = if digit c then some (c ∷ []) else none
all_digits (c ∷ d ∷ s) =
    let rest = (do t ← all_digits (d ∷ s); some (c ∷ t)) in if digit c then rest else none

-- year([0-9]{4})(week|quarter|month)([0-9]+)$
unfoldable pub periodic : Text → Option (Text × Period × Text)
unfolding literal classes period all_digits
periodic s = do
  r ← literal (codes "year") s
  (y, r) ← classes digits4 r
  (p, r) ← period r
  n ← all_digits r
  some (y, p, n)

-- FindStringSubmatch: the leftmost match.
unfoldable pub find : {A : Type 0} → (Text → Option A) → Text → Option A
find m [] = m []
find m (c ∷ s) = let rest = find m s in elim (m (c ∷ s)) [ some a ↦ some a | none ↦ rest ]
