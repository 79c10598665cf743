-- ===== src/Api/Middleware/Slashes.antt =====
-- removeTrailingSlash: `path[l]` and `path[:l]` with l the last index.
use go_leaderboard.Base.{
  ℕ, ◌-◌, ltb, ◌==◌, ◌&&◌, not, ◌≡◌, refl, ap, arith, Bool, false, if◌then◌else◌, none, some, [],
  ◌∷◌, ◌++◌, length, length-append, get_elem?, take, Bool-cases, inl, inr,
}
use go_leaderboard.Base.Bytes.{Text, codes, eq, eq_iff}

-- The byte at an index is c.
abbrev pub is_at : ℕ → ℕ → Text → Bool
is_at c i s = elim (get_elem? s i) [ none ↦ false | some x ↦ x == c ]

-- `l > 0` holds of no text of one byte or none.
unfoldable pub remove_trailing_slash : Text → Text
remove_trailing_slash path =
    let l = length path - 1 in
    if ltb 0 l && (not (eq path (codes "/")) && is_at b'/' l path) then take l path else path

get_elem?-last : (s : Text) (c : ℕ) → get_elem? (s ++ c ∷ []) (length s) ≡ some c
get_elem?-last [] c = refl
get_elem?-last (x ∷ s) c = get_elem?-last s c

take-append : (s t : Text) → take (length s) (s ++ t) ≡ s
take-append [] t = refl
take-append (x ∷ s) t = ap (λ (r : Text). x ∷ r) (take-append s t)

last_index : (s : Text) (c : ℕ) → length (s ++ c ∷ []) - 1 ≡ length s
last_index s c = omega (arith, length-append s (c ∷ []))

not_root : (x : ℕ) (s : Text) (c : ℕ) → eq (x ∷ s ++ c ∷ []) (codes "/") ≡ false
not_root x s c = elim (Bool-cases (eq (x ∷ s ++ c ∷ []) (codes "/"))) [
  | inl e ↦ absurd (omega (arith, ap length ((eq_iff _ _).0 e), length-append s (c ∷ [])))
  | inr e ↦ e
]

-- Exactly one slash at the end goes, unless it is the whole path.
pub remove_trailing_slash_lem :
    (x : ℕ) (s : Text) (c : ℕ)
    → remove_trailing_slash (x ∷ s ++ c ∷ []) ≡ (if c == b'/' then x ∷ s else x ∷ s ++ c ∷ [])
unfolding remove_trailing_slash
remove_trailing_slash_lem x s c =
    rw
      (last_index (x ∷ s) c, not_root x s c, get_elem?-last (x ∷ s) c, take-append (x ∷ s) (c ∷ []))
      (ground arith)
