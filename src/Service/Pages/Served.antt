-- ===== src/Service/Pages/Served.antt =====
-- GetLeaders over a server that answers.
use mathlib.Core.List.{reverse, reverse-cons}
use native.Mathlib.Nat.{div-add-mod', mul-le-mul_right}
use go_leaderboard.Base.{
  ℕ, zero, suc, ◌+◌, ◌-◌, ◌*◌, ◌≤◌, ◌<◌, ◌≡◌, refl, ap, arith, true, false, List, [], ◌∷◌, map,
  length, length-append, length-drop, length-take, take, drop, Bool-cases, inl, inr,
}
use go_leaderboard.Base.Int.{pos, ltb_ℤ}
use go_leaderboard.Base.Effect.{ok}
use go_leaderboard.Base.Bytes.{Text}
use go_leaderboard.Go.Word.{◌-w◌, ◌*w◌}
use go_leaderboard.Go.Float.{to_int}
use go_leaderboard.Go.Time.{Time}
use go_leaderboard.Redis.Defs.{GoRedis, Z}
use go_leaderboard.Redis.Answers.{Answers}
use go_leaderboard.Redis.Sorted.{slice}
use go_leaderboard.Redis.Standalone.{client}
use go_leaderboard.Database.Redis.{redis_database}
use go_leaderboard.Database.Ranks.{numbered}
use go_leaderboard.Database.Served.{
  Direction, up, down, order_name, in_order, of_z, get_total_members-length,
  get_ordered_members-slice,
}
use go_leaderboard.Service.Defs.{Service, Member}
use go_leaderboard.Service.Members.{convert_members}
use go_leaderboard.Service.Around.Window.{limit, at, add_small, sub_small}
use go_leaderboard.Service.Pages.Ceiling.{ceil_div, c53, pages_exact}
use go_leaderboard.Service.Pages.{get_indexes_by_page, ensure_valid_page, get_leaders}

-- The service over the redis database of a server.
abbrev pub service : {W : Type 0} → GoRedis W → (W → Time × W) → Service W
service g clock = record { database = redis_database (client g); clock = clock }

-- The entries as members of the answer, the first with rank n + 1.
abbrev pub ranked : ℕ → List Z → List Member
ranked n [] = []
ranked n (z ∷ zs) =
    record {
      public_id = z.member;
      score = to_int z.score;
      rank = pos (n + 1);
      previous_rank = pos 0;
      expire_at = pos 0;
    }
    ∷ ranked (n + 1) zs

pub convert-numbered :
    (n : ℕ) (zs : List Z)
    → n + length zs < limit
    → convert_members (numbered (pos n) (map of_z zs)) ≡ ranked n zs
unfolding convert_members numbered
convert-numbered n [] h = refl
convert-numbered n (z ∷ zs) h =
    rw (add_small n 1 (omega arith) (omega arith))
      (rw (convert-numbered (n + 1) zs (omega arith)) refl)

pub length-in_order : (d : Direction) (zs : List Z) → length (in_order d zs) ≡ length zs
length-in_order up zs = refl
length-in_order down [] = refl
length-in_order down (z ∷ zs) = omega (
  arith,
  ap length (reverse-cons z zs),
  length-append (reverse zs) (z ∷ []),
  length-in_order down zs,
)

pub drop-past : (n : ℕ) (zs : List Z) → length zs ≤ n → drop n zs ≡ []
drop-past zero [] h = refl
drop-past zero (z ∷ zs) h = absurd (omega arith)
drop-past (suc n) [] h = refl
drop-past (suc n) (z ∷ zs) h = drop-past n zs (omega arith)

pub mul_small : (a b : ℕ) → a * b < limit → pos a *w pos b ≡ pos (a * b)
unfolding ◌*w◌
mul_small a b h = ground arith

pub minus_one : (k : ℕ) → k < limit → pos (suc k) -w pos 1 ≡ pos k
unfolding ◌-w◌
minus_one k h = ground arith

-- The indexes of page k + 1.
pub page_indexes :
    (size k : ℕ)
    → 0 < size
    → k * size + size < limit
    → k < limit
    → get_indexes_by_page (pos size) (pos (suc k)) ≡ at (k * size) (k * size + size - 1)
unfolding get_indexes_by_page
page_indexes size k q h b = rw (minus_one k b) (
    rw (mul_small k size (omega arith)) (
      rw (add_small (k * size) size (omega arith) (omega arith))
        (rw (sub_small (k * size + size) 1 (omega arith) (omega arith)) refl)))

not_first : (k : ℕ) → ltb_ℤ (pos (suc k)) (pos 1) ≡ false
not_first k = ground arith

pub slice-page :
    (n size : ℕ) (zs : List Z)
    → 0 < size
    → slice (pos n) (pos (n + size - 1)) zs ≡ take size (drop n zs)
unfolding slice
slice-page n size zs q = ap (λ (m : ℕ). take m (drop n zs)) (omega arith)

pub ceil-covers : (n d : ℕ) → 0 < d → n ≤ ceil_div n d * d
ceil-covers n d p = grind (arith, div-add-mod' (n + d - 1) d)

length-page : (size n : ℕ) (zs : List Z) → length (take size (drop n zs)) ≤ length zs - n
length-page size n zs = omega (arith, length-take size (drop n zs), length-drop n zs)

pub take-nil {ℓ} : {A : Type ℓ} (n : ℕ) → take {A = A} n [] ≡ []
take-nil zero = refl
take-nil (suc n) = refl

at_most : (c k : ℕ) → ltb_ℤ (pos c) (pos (suc k)) ≡ true → c ≤ k
at_most c k e = ground arith

module _ {W : Type 0} (g : GoRedis W) (ranking : W → Text → List Z) (a : Answers g ranking)
    (clock : W → Time × W) where
  -- The members on page k + 1 of a leaderboard.
  abbrev pub page_of : Text → Direction → W → ℕ → ℕ → List Member
  page_of lb d w size k =
      ranked (k * size) (take size (drop (k * size) (in_order d (ranking w lb))))

  beyond :
      (lb : Text) (d : Direction) (w : W) (size k : ℕ)
      → 0 < size
      → ltb_ℤ (pos (ceil_div (length (ranking w lb)) size)) (pos (suc k)) ≡ true
      → page_of lb d w size k ≡ []
  beyond lb d w size k q e =
      rw (drop-past (k * size) (in_order d (ranking w lb)) few) (rw (take-nil size) refl)
    where
      few : length (in_order d (ranking w lb)) ≤ k * size
      few = omega (
        arith,
        length-in_order d (ranking w lb),
        ceil-covers (length (ranking w lb)) size q,
        mul-le-mul_right size (at_most (ceil_div (length (ranking w lb)) size) k e),
      )

  listed_page :
      (lb : Text) (d : Direction) (w : W) (size k : ℕ)
      → 0 < size
      → length (ranking w lb) + (k * size + size) < limit
      → convert_members (
          numbered (pos (k * size)) (
            map of_z
              (slice (pos (k * size)) (pos (k * size + size - 1)) (in_order d (ranking w lb)))))
        ≡ page_of lb d w size k
  listed_page lb d w size k q h = rw (slice-page (k * size) size (in_order d (ranking w lb)) q) (
      convert-numbered (k * size) _ (
        omega (
          arith,
          length-page size (k * size) (in_order d (ranking w lb)),
          length-in_order d (ranking w lb),
        )))

  -- Over a server that answers, with a page size from 1 and all counts below 2^53, GetLeaders for
  -- page k + 1 returns, in either order, the members from k * size on, at most size of them, each
  -- with its rank from 1; past the last page that is the empty list.
  pub get_leaders-page :
      (lb : Text) (d : Direction) (w : W) (size k : ℕ)
      → 0 < size
      → size < c53
      → length (ranking w lb) < c53
      → k * size + size < c53
      → k < c53
      → get_leaders (service g clock) lb (pos size) (pos (suc k)) (order_name d) w
        ≡ (ok (page_of lb d w size k), w)
  unfolding get_leaders ensure_valid_page
  get_leaders-page lb d w size k q hs ht hk hp = rw (get_total_members-length g ranking a lb w) (
      rw (not_first k) (
        rw (pages_exact (length (ranking w lb)) size ht q hs)
          (elim (Bool-cases (ltb_ℤ (pos (ceil_div (length (ranking w lb)) size)) (pos (suc k)))) [
            | inl e ↦ rw e (rw (beyond lb d w size k q e) refl)
            | inr e ↦ rw e (
                rw (page_indexes size k q (omega arith) (omega arith)) (
                  rw
                    (get_ordered_members-slice g ranking a lb (pos (k * size))
                      (pos (k * size + size - 1)) d w)
                    (rw (listed_page lb d w size k q (omega arith)) refl)))
          ])))
