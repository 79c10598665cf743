-- ===== src/Redis/Sorted/Due.antt =====
-- Whose time has come after ZREM.
use go_leaderboard.Base.{
  ◌≡◌, refl, sym, ap, ◌∙◌, ◌≤◌, ℕ, zero, suc, arith, true, false, List, [], ◌∷◌, length, take, All,
}
use go_leaderboard.Base.Bytes.{Text, eq, eq_refl}
use go_leaderboard.Go.Float.{Float64}
use go_leaderboard.Redis.Defs.{Z}
use go_leaderboard.Redis.Sorted.{without}
use go_leaderboard.Redis.Removes.{without_all, due, has, absent_from}

eq_comm : (s t : Text) → eq s t ≡ eq t s
unfolding eq
eq_comm [] [] = refl
eq_comm [] (y ∷ t) = refl
eq_comm (x ∷ s) [] = refl
eq_comm (x ∷ s) (y ∷ t) = ground (arith, eq_comm s t)

pub absent_from-nil : (l : List Text) → absent_from [] l ≡ l
unfolding absent_from has
absent_from-nil [] = refl
absent_from-nil (n ∷ ns) = ap (λ (l : List Text). n ∷ l) (absent_from-nil ns)

absent_from-absent_from :
    (m : Text) (ms l : List Text) → absent_from ms (absent_from (m ∷ []) l) ≡ absent_from (m ∷ ms) l
unfolding absent_from has
absent_from-absent_from m ms [] = refl
absent_from-absent_from m ms (n ∷ ns) = ground (arith, absent_from-absent_from m ms ns)

pub length-absent_from : (ms l : List Text) → length (absent_from ms l) ≤ length l
unfolding absent_from
length-absent_from ms [] = omega arith
length-absent_from ms (n ∷ ns) = ground (arith, length-absent_from ms ns)

pub has-absent_from :
    (m : Text) (ms l : List Text) → has m l ≡ false → has m (absent_from ms l) ≡ false
unfolding absent_from has
has-absent_from m ms [] h = refl
has-absent_from m ms (n ∷ ns) h = ground (arith, has-absent_from m ms ns)

absent_from-listed : (ms l : List Text) → All (λ n. has n ms ≡ true) l → absent_from ms l ≡ []
unfolding absent_from
absent_from-listed ms [] h = refl
absent_from-listed ms (n ∷ ns) h = rw h.0 (absent_from-listed ms ns h.1)

All-in_longer :
    (m : Text) (ms l : List Text)
    → All (λ n. has n ms ≡ true) l
    → All (λ n. has n (m ∷ ms) ≡ true) l
unfolding has
All-in_longer m ms [] h = tt
All-in_longer m ms (n ∷ ns) h = (ground (arith, h.0), All-in_longer m ms ns h.1)

All-in_itself : (l : List Text) → All (λ n. has n l ≡ true) l
unfolding has
All-in_itself [] = tt
All-in_itself (n ∷ ns) = (rw (eq_refl n) refl, All-in_longer n ns ns (All-in_itself ns))

due-without :
    (x : Float64) (m : Text) (zs : List Z) → due x (without m zs) ≡ absent_from (m ∷ []) (due x zs)
unfolding due without absent_from has
due-without x m [] = refl
due-without x m (z ∷ zs) = ground (arith, due-without x m zs, eq_comm m z.member)

pub due-without_all :
    (x : Float64) (ms : List Text) (zs : List Z)
    → due x (without_all ms zs) ≡ absent_from ms (due x zs)
unfolding without_all
due-without_all x [] zs = sym (absent_from-nil (due x zs))
due-without_all x (m ∷ ms) zs =
    due-without_all x ms (without m zs)
    ∙ ap (absent_from ms) (due-without x m zs)
    ∙ absent_from-absent_from m ms (due x zs)

-- Once all that are due are out, none is due.
pub due-emptied : (x : Float64) (zs : List Z) → due x (without_all (due x zs) zs) ≡ []
due-emptied x zs =
    due-without_all x (due x zs) zs
    ∙ absent_from-listed (due x zs) (due x zs) (All-in_itself (due x zs))

pub take-whole : (n : ℕ) (l : List Text) → length l ≤ n → take n l ≡ l
take-whole zero [] h = refl
take-whole zero (x ∷ l) h = absurd (omega arith)
take-whole (suc n) [] h = refl
take-whole (suc n) (x ∷ l) h = ap (λ (l : List Text). x ∷ l) (take-whole n l (omega arith))

pub has-take : (m : Text) (n : ℕ) (l : List Text) → has m l ≡ false → has m (take n l) ≡ false
unfolding has
has-take m zero l h = refl
has-take m (suc n) [] h = refl
has-take m (suc n) (x ∷ l) h = ground (arith, has-take m n l)
