-- ===== src/Service/Pages/Whole.antt =====
-- The pages of a leaderboard, one after the other.
use native.Mathlib.Nat.{mul-le-mul_right}
use go_leaderboard.Base.{
  ℕ, zero, suc, ◌+◌, ◌*◌, ◌≤◌, ◌<◌, ◌≡◌, refl, ap, ◌∙◌, arith, List, [], ◌∷◌, ◌++◌, length, take,
  drop,
}
use go_leaderboard.Base.Int.{ℤ, pos}
use go_leaderboard.Base.Effect.{M, ok, pure, ◌>>=◌}
use go_leaderboard.Base.Bytes.{Text}
use go_leaderboard.Go.Time.{Time}
use go_leaderboard.Redis.Defs.{GoRedis, Z}
use go_leaderboard.Redis.Answers.{Answers}
use go_leaderboard.Database.Served.{Direction, order_name, in_order}
use go_leaderboard.Service.Errors.{ServiceError}
use go_leaderboard.Service.Defs.{Service, Member}
use go_leaderboard.Service.Pages.{get_leaders}
use go_leaderboard.Service.Pages.Ceiling.{ceil_div, c53}
use go_leaderboard.Service.Pages.Served.{
  take-nil, service, ranked, get_leaders-page, ceil-covers, length-in_order,
}

-- What a caller has who asks for the pages 1 to n, one after the other.
unfoldable pub first_pages :
    {W : Type 0} → Service W → Text → ℤ → Text → ℕ → M W ServiceError (List Member)
first_pages s lb size order zero = pure []
first_pages s lb size order (suc n) = do
  xs ← first_pages s lb size order n
  ys ← get_leaders s lb size (pos (suc n)) order
  pure (xs ++ ys)

add_zero : (m : ℕ) → m + 0 ≡ m
add_zero m = omega arith

zero_add : (k : ℕ) → k ≡ 0 + k
zero_add k = omega arith

add_next : (m n : ℕ) → m + suc n ≡ m + 1 + n
add_next m n = omega arith

suc_add : (n k : ℕ) → suc (n + k) ≡ suc n + k
suc_add n k = omega arith

zero_mul : (size : ℕ) → 0 ≡ 0 * size
zero_mul size = omega arith

le_mul : (n size : ℕ) → 0 < size → n ≤ n * size
le_mul n size p = grind arith

next_page : (n size : ℕ) → n * size + size ≡ suc n * size
next_page n size = grind arith

ranked-take :
    (m n k : ℕ) (zs : List Z)
    → ranked m (take n zs) ++ ranked (m + n) (take k (drop n zs)) ≡ ranked m (take (n + k) zs)
ranked-take m zero k zs =
    ap (λ (i : ℕ). ranked i (take k zs)) (add_zero m)
    ∙ ap (λ (j : ℕ). ranked m (take j zs)) (zero_add k)
ranked-take m (suc n) k [] = rw (take-nil {A = Z} k, take-nil {A = Z} (suc n + k)) refl
ranked-take m (suc n) k (z ∷ zs) =
    ap (λ (xs : List Member). ranked m (z ∷ []) ++ xs)
      (ap (λ (i : ℕ). ranked (m + 1) (take n zs) ++ ranked i (take k (drop n zs))) (add_next m n)
        ∙ ranked-take (m + 1) n k zs)
    ∙ ap (λ (j : ℕ). ranked m (take j (z ∷ zs))) (suc_add n k)

take-all : (n : ℕ) (zs : List Z) → length zs ≤ n → take n zs ≡ zs
take-all zero [] h = refl
take-all zero (z ∷ zs) h = absurd (omega arith)
take-all (suc n) [] h = refl
take-all (suc n) (z ∷ zs) h = ap (λ (ys : List Z). z ∷ ys) (take-all n zs (omega arith))

module _ {W : Type 0} (g : GoRedis W) (ranking : W → Text → List Z) (a : Answers g ranking)
    (clock : W → Time × W) where
  first_pages-take :
      (lb : Text) (d : Direction) (w : W) (size n : ℕ)
      → 0 < size
      → size < c53
      → length (ranking w lb) < c53
      → n * size < c53
      → first_pages (service g clock) lb (pos size) (order_name d) n w
        ≡ (ok (ranked 0 (take (n * size) (in_order d (ranking w lb)))), w)
  unfolding first_pages
  first_pages-take lb d w size zero p q h b =
      ap (λ (j : ℕ). (ok (ranked 0 (take j (in_order d (ranking w lb)))), w)) (zero_mul size)
  first_pages-take lb d w size (suc n) p q h b =
      rw (first_pages-take lb d w size n p q h (omega (arith, next_page n size))) (
        rw
          (get_leaders-page g ranking a clock lb d w size n p q h (omega (arith, next_page n size))
            (omega (arith, le_mul n size p, next_page n size)))
          (ap (λ (xs : List Member). (ok xs, w))
            (ap
                (λ (i : ℕ).
                  ranked 0 (take (n * size) (in_order d (ranking w lb)))
                  ++ ranked i (take size (drop (n * size) (in_order d (ranking w lb)))))
                (zero_add (n * size))
              ∙ ranked-take 0 (n * size) size (in_order d (ranking w lb))
              ∙ ap (λ (j : ℕ). ranked 0 (take j (in_order d (ranking w lb)))) (next_page n size))))

  -- Over a server that answers, with a page size from 1, fewer than 2^53 members and n pages of
  -- fewer than 2^53 entries in all: if n is at least the number of pages, the pages 1 to n that
  -- GetLeaders returns, one after the other, are the whole ranking in the order asked, each member
  -- once with its rank from 1.
  pub first_pages-whole :
      (lb : Text) (d : Direction) (w : W) (size n : ℕ)
      → 0 < size
      → size < c53
      → length (ranking w lb) < c53
      → n * size < c53
      → ceil_div (length (ranking w lb)) size ≤ n
      → first_pages (service g clock) lb (pos size) (order_name d) n w
        ≡ (ok (ranked 0 (in_order d (ranking w lb))), w)
  first_pages-whole lb d w size n p q h b e =
      first_pages-take lb d w size n p q h b
      ∙ ap (λ (zs : List Z). (ok (ranked 0 zs), w))
          (take-all (n * size) (in_order d (ranking w lb)) (
            omega (
              arith,
              length-in_order d (ranking w lb),
              ceil-covers (length (ranking w lb)) size p,
              mul-le-mul_right size e,
            )))
