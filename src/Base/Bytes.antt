-- ===== src/Base/Bytes.antt =====
-- Go strings as lists of bytes, and what the code uses of the packages strings and strconv.
use Prim.Native.Char.{code}
use Prim.Native.String.{String}
use Prim.Native.Nat.{ℕ}
use mathlib.Core.Path.{◌≡◌, refl}
use mathlib.Core.Logic.{◌↔◌}
use mathlib.Core.Bool.{Bool, true, false, ◌&&◌}
use mathlib.Core.List.{List, [], ◌∷◌, ◌++◌}
use native.Mathlib.Omega.{arith}
use go_leaderboard.Base.Tests.{◌==◌, if◌then◌else◌}

abbrev pub Text : Type 0
Text = List ℕ

-- The bytes of an ASCII literal.
abbrev pub codes : String → Text
codes String.[] = []
codes (String.◌∷◌ c s) = code c ∷ codes s

-- s == t
unfoldable pub eq : Text → Text → Bool
eq [] [] = true
eq [] (y ∷ t) = false
eq (x ∷ s) [] = false
eq (x ∷ s) (y ∷ t) = (x == y) && eq s t

pub eq_iff : (s t : Text) → (eq s t ≡ true) ↔ (s ≡ t)
unfolding eq
eq_iff [] [] = (λ _. refl, λ _. refl)
eq_iff [] (y ∷ t) = (λ h. cc, λ h. cc)
eq_iff (x ∷ s) [] = (λ h. cc, λ h. cc)
eq_iff (x ∷ s) (y ∷ t) = let (f, g) = eq_iff s t in (λ h. ground arith, λ h. ground arith)

pub eq_refl : (s : Text) → eq s s ≡ true
eq_refl s = (eq_iff s s).1 refl

-- strings.HasPrefix(s, p)
unfoldable pub has_prefix : Text → Text → Bool
has_prefix s [] = true
has_prefix [] (c ∷ p) = false
has_prefix (x ∷ s) (c ∷ p) = (x == c) && has_prefix s p

pub has_prefix-append : (p s : Text) → has_prefix (p ++ s) p ≡ true
unfolding has_prefix
has_prefix-append [] s = refl
has_prefix-append (c ∷ p) s = ground (arith, has_prefix-append p s)

-- strings.TrimSuffix(s, p)
unfoldable pub trim_suffix : Text → Text → Text
unfolding eq
trim_suffix [] p = []
trim_suffix (x ∷ s) p = if eq (x ∷ s) p then [] else x ∷ trim_suffix s p
