-- ===== src/Client/Places.antt =====
-- When two members have the same URL.
use go_leaderboard.Base.{ℕ, ◌≡◌, refl, sym, [], ◌∷◌, ◌++◌}
use go_leaderboard.Base.Bytes.{Text, codes}
use go_leaderboard.Client.Defs.{Podium}
use go_leaderboard.Client.Urls.{build_get_member_url}
use go_leaderboard.Client.Ids.{Lacks}
use mathlib.Core.List.{append_assoc, append_cancel_left}

cons_eq : {x y : ℕ} {s t : Text} → (x ∷ s) ≡ (y ∷ t) → (x ≡ y) × (s ≡ t)
cons_eq e = (cc, cc)

-- Texts without a byte, before the first place where it stands.
before_eq :
    (c : ℕ) (s t s' t' : Text)
    → Lacks c s
    → Lacks c t
    → s ++ c ∷ s' ≡ t ++ c ∷ t'
    → (s ≡ t) × (s' ≡ t')
before_eq c [] [] s' t' h k e = (refl, (cons_eq e).1)
before_eq c [] (y ∷ t) s' t' h k e = absurd (k.0 (sym (cons_eq e).0))
before_eq c (x ∷ s) [] s' t' h k e = absurd (h.0 (cons_eq e).0)
before_eq c (x ∷ s) (y ∷ t) s' t' h k e =
    let (d, r) = cons_eq e in let (a, b) = before_eq c s t s' t' h.1 k.1 r in (cc, b)

module _ {W : Type 0} (p : Podium W) where
  -- Two members of leaderboards whose names have no slash have the same URL only if leaderboard
  -- and member are the same.
  pub build_get_member_url_injective :
      (l l' m m' : Text)
      → Lacks b'/' l
      → Lacks b'/' l'
      → build_get_member_url p l m ≡ build_get_member_url p l' m'
      → (l ≡ l') × (m ≡ m')
  unfolding build_get_member_url
  build_get_member_url_injective l l' m m' h h' e =
      let e1 = append_cancel_left (codes "/l/") _ _ (append_cancel_left p.base_url _ _ e) in
      let (a, b) = before_eq b'/' l l' _ _ h h' e1 in
      (a, append_cancel_left (codes "members/") m m' b)

  pub build_get_member_url_clash :
      (l m n : Text)
      → build_get_member_url p (l ++ (codes "/members/" ++ m)) n
        ≡ build_get_member_url p l (m ++ (codes "/members/" ++ n))
  unfolding build_get_member_url
  build_get_member_url_clash l m n = simp append_assoc
