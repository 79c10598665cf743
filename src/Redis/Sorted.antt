-- ===== src/Redis/Sorted.antt =====
-- Redis sorted sets as far as its documentation tells what the commands answer: index ranges,
-- ranks, scores and the effect of ZADD and ZREM on the order of the members.
pub mod Listed
pub mod Without
pub mod Added
pub mod Due
use Prim.Native.Nat.{min}
use go_leaderboard.Base.{
  ℕ, zero, suc, ◌+◌, ◌-◌, ◌*◌, ◌^◌, ◌≡◌, refl, ap, arith, ltb, ◌==◌, Bool, true, false, ◌&&◌, ◌||◌,
  not, if◌then◌else◌, Option, none, some, List, [], ◌∷◌, ◌++◌, length, take, drop,
}
use go_leaderboard.Base.Int.{ℤ, pos, negsuc, pos_part, neg_part, ltb_ℤ, eqb_ℤ}
use go_leaderboard.Base.Bytes.{Text, eq}
use go_leaderboard.Go.Float.{Float64, finite, infinite, nan, with_sign, is_neg, magnitude}
use go_leaderboard.Redis.Defs.{Z}

-- The range from start to stop, both included; an index below 0 counts from the end.
abbrev pub begin : ℤ → ℕ → ℕ
begin (pos a) n = a
begin (negsuc a) n = n - suc a

abbrev pub past : ℤ → ℕ → ℕ
past (pos b) n = suc b
past (negsuc b) n = n - b

unfoldable pub slice : ℤ → ℤ → List Z → List Z
slice start stop zs =
    let n = length zs in take (past stop n - begin start n) (drop (begin start n) zs)

unfoldable pub position : Text → List Z → Option ℕ
position m [] = none
position m (z ∷ zs) =
    if eq z.member m then some 0 else elim (position m zs) [ none ↦ none | some i ↦ some (suc i) ]

unfoldable pub score_of : Text → List Z → Option Float64
score_of m [] = none
score_of m (z ∷ zs) = if eq z.member m then some z.score else score_of m zs

unfoldable pub without : Text → List Z → List Z
without m [] = []
without m (z ∷ zs) = let rest = without m zs in if eq z.member m then rest else z ∷ rest

-- a < b
unfoldable pub below : Float64 → Float64 → Bool
below (finite m k) (finite n l) =
    ltb_ℤ (with_sign (is_neg m) (magnitude m * 2 ^ l)) (with_sign (is_neg n) (magnitude n * 2 ^ k))
below (finite m k) (infinite neg) = not neg
below (infinite neg) (finite n l) = neg
below (infinite s) (infinite t) = s && not t
below _ _ = false

-- The order of texts by their bytes.
unfoldable pub text_below : Text → Text → Bool
text_below [] [] = false
text_below [] (y ∷ t) = true
text_below (x ∷ s) [] = false
text_below (x ∷ s) (y ∷ t) = ltb x y || ((x == y) && text_below s t)

-- By score, then by member.
unfoldable pub before : Z → Z → Bool
unfolding below text_below
before y z = below y.score z.score || (not (below z.score y.score) && text_below y.member z.member)

unfoldable pub place : Z → List Z → List Z
unfolding before
place z [] = z ∷ []
place z (y ∷ ys) = let rest = place z ys in if before y z then y ∷ rest else z ∷ y ∷ ys

-- ZADD of one member and of several.
unfoldable pub add_one : Z → List Z → List Z
unfolding without place
add_one z zs = place z (without z.member zs)

unfoldable pub add_all : List Z → List Z → List Z
unfolding add_one
add_all [] zs = zs
add_all (y ∷ ys) zs = add_all ys (add_one y zs)
