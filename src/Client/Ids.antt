-- ===== src/Client/Ids.antt =====
-- Ids that the client joins with commas, and the API splits again.
use go_leaderboard.Base.{
  ℕ, ◌≡◌, refl, ap, ◌∙◌, subst, arith, ◌==◌, false, Bool-cases, inl, inr, ◌≢◌, ◌↔◌, List, [], ◌∷◌,
  ◌++◌, All,
}
use go_leaderboard.Base.Bytes.{Text}
use go_leaderboard.Go.Strconv.{split, add_head}
use go_leaderboard.Client.Urls.{join}

-- The byte does not stand in the text.
abbrev pub Lacks : ℕ → Text → Type 0
Lacks c t = All (λ x. x ≢ c) t

add_head-Lacks :
    (c : ℕ) (ts : List Text) → c ≢ b',' → All (Lacks b',') ts → All (Lacks b',') (add_head c ts)
unfolding add_head
add_head-Lacks c [] h a = ((h, tt), tt)
add_head-Lacks c (t ∷ ts) h a = ((h, a.0), a.1)

split-Lacks : (s : Text) → All (Lacks b',') (split s)
unfolding split
split-Lacks [] = (tt, tt)
split-Lacks (c ∷ s) = elim (Bool-cases (c == b',')) [
  | inl e ↦ rw e (tt, split-Lacks s)
  | inr e ↦ rw e (add_head-Lacks c (split s) (λ p. ground arith) (split-Lacks s))
]

add_head-ne-nil : (c : ℕ) (ts : List Text) → add_head c ts ≢ []
unfolding add_head
add_head-ne-nil c [] h = cc
add_head-ne-nil c (t ∷ ts) h = cc

split-ne-nil : (s : Text) → split s ≢ []
unfolding split
split-ne-nil [] h = cc
split-ne-nil (c ∷ s) h = elim (Bool-cases (c == b',')) [
  | inl e ↦ cc (rw e at h)
  | inr e ↦ add_head-ne-nil c (split s) (rw e at h)
]

not_comma : (c : ℕ) → c ≢ b',' → (c == b',') ≡ false
not_comma c h = ground arith

split_one : (t : Text) → Lacks b',' t → split t ≡ t ∷ []
unfolding split add_head
split_one [] h = refl
split_one (c ∷ t) h = rw (not_comma c h.0, split_one t h.1)

split-append : (t s : Text) → Lacks b',' t → split (t ++ b',' ∷ s) ≡ t ∷ split s
unfolding split add_head
split-append [] s h = refl
split-append (c ∷ t) s h = rw (not_comma c h.0, split-append t s h.1)

split-join : (ids : List Text) → ids ≢ [] → All (Lacks b',') ids → split (join ids) ≡ ids
unfolding join
split-join [] ne h = absurd (ne refl)
split-join (t ∷ []) ne h = split_one t h.0
split-join (t ∷ u ∷ ids) ne h =
    split-append t (join (u ∷ ids)) h.0
    ∙ ap (λ (r : List Text). t ∷ r) (split-join (u ∷ ids) (λ e. cc) h.1)

pub split-join_iff :
    (ids : List Text) → (split (join ids) ≡ ids) ↔ ((ids ≢ []) × All (Lacks b',') ids)
split-join_iff ids = (
  λ e. (
    subst (λ (l : List Text). l ≢ []) e (split-ne-nil (join ids)),
    subst (λ (l : List Text). All (Lacks b',') l) e (split-Lacks (join ids)),
  ),
  λ h. split-join ids h.0 h.1,
)
