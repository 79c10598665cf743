-- ===== src/Base/Effect.antt =====
-- Go's `(value, error)` returns over a state: a function of the state that gives an outcome and
-- the next state. `panic` is a run-time panic (a nil dereference, an index out of range).
use go_leaderboard.Base.{◌≡◌, refl, ◌⊎◌, inl, inr}

pub data Outcome (E A : Type 0) : Type 0 where
  ok : A → Outcome E A
  err : E → Outcome E A
  panic : Outcome E A

abbrev pub M : Type 0 → Type 0 → Type 0 → Type 0
M W E A = W → Outcome E A × W

abbrev pub pure : {W E A : Type 0} → A → M W E A
pure a w = (ok a, w)

abbrev pub fail : {W E A : Type 0} → E → M W E A
fail e w = (err e, w)

abbrev pub crash : {W E A : Type 0} → M W E A
crash w = (panic, w)

-- The code after a call, by what the call returned: `if err != nil { … }`, then the rest.
abbrev pub resume : {W E F A B : Type 0} → Outcome E A → (E → M W F B) → (A → M W F B) → M W F B
resume (ok a) h k w = k a w
resume (err e) h k w = h e w
resume panic h k w = (panic, w)

abbrev pub handle : {W E F A B : Type 0} → M W E A → (E → M W F B) → (A → M W F B) → M W F B
handle m h k w = resume (m w).0 h k (m w).1

-- `if err != nil { return nil, f(err) }`
abbrev pub wrap_err : {W E F A : Type 0} → (E → F) → M W E A → M W F A
wrap_err f m = handle m (λ e. fail (f e)) pure

infixl 5 ◌>>=◌ ◌>>◌
abbrev pub ◌>>=◌ : {W E A B : Type 0} → M W E A → (A → M W E B) → M W E B
m >>= f = handle m fail f

abbrev pub ◌>>◌ : {W E A B : Type 0} → M W E A → M W E B → M W E B
m >> k = m >>= λ _. k

-- What holds of every way on holds after a call.
pub resume-holds :
    {W E F A B : Type 0} (P : Outcome F B → Type 0) (o : Outcome E A) (h : E → M W F B)
    (k : A → M W F B) (w : W)
    → P panic
    → ((e : E) → P (h e w).0)
    → ((x : A) → P (k x w).0)
    → P (resume o h k w).0
resume-holds P (ok a) h k w p q r = r a
resume-holds P (err e) h k w p q r = q e
resume-holds P panic h k w p q r = p

pub Outcome-cases :
    {E A : Type 0} (o : Outcome E A)
    → ((a : A) × (o ≡ ok a)) ⊎ ((e : E) × (o ≡ err e)) ⊎ (o ≡ panic)
Outcome-cases (ok a) = inl (a, refl)
Outcome-cases (err e) = inr (inl (e, refl))
Outcome-cases panic = inr (inr refl)
