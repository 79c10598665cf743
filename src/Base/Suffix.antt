-- ===== src/Base/Suffix.antt =====
-- TrimSuffix undoes the appending of a suffix.
use go_leaderboard.Base.Bytes.{Text, eq, eq_iff, eq_refl, trim_suffix}
use go_leaderboard.Base.{
  ℕ, ◌≡◌, refl, ap, arith, true, [], ◌∷◌, ◌++◌, length, length-append, Bool-cases, inl, inr,
}

trim_self : (p : Text) → trim_suffix p p ≡ []
unfolding trim_suffix
trim_self [] = refl
trim_self (c ∷ p) = rw (eq_refl (c ∷ p), trim_suffix)

longer : (x : ℕ) (s p : Text) → eq (x ∷ s ++ p) p ≡ true → ⊥
longer x s p h = omega (arith, ap length ((eq_iff (x ∷ s ++ p) p).0 h), length-append (x ∷ s) p)

-- What TrimSuffix leaves of a text with the suffix behind it is the text.
pub trim_suffix-append : (s p : Text) → trim_suffix (s ++ p) p ≡ s
unfolding trim_suffix
trim_suffix-append [] p = trim_self p
trim_suffix-append (x ∷ s) p = elim (Bool-cases (eq (x ∷ s ++ p) p)) [
  | inl e ↦ absurd (longer x s p e)
  | inr e ↦ rw (e, trim_suffix) (ap (λ (t : Text). x ∷ t) (trim_suffix-append s p))
]
