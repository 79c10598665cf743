-- ===== src/Service/Around/Window.antt =====
-- The window of calculateIndexesAroundMemberRank (leaderboard/service/indexes.go).
use Prim.Native.Nat.{min}
use go_leaderboard.Base.{
  ℕ, zero, suc, ◌+◌, ◌-◌, ◌/◌, ◌≤◌, ◌<◌, ◌≡◌, arith, ltb, Bool-cases, inl, inr, ◌∙◌,
}
use go_leaderboard.Base.Int.{pos, sub_ℕ, negsuc, quot}
use go_leaderboard.Go.Word.{◌+w◌, ◌-w◌}
use go_leaderboard.Service.Pages.{Index, indexes_around, window_from, at_least_zero}

-- No rank, total or page size passes this bound.
abbrev pub limit : ℕ
limit = 4611686018427387904

pub sub_small : (a b : ℕ) → b ≤ a → a < limit + limit → pos a -w pos b ≡ pos (a - b)
unfolding ◌-w◌
sub_small a b h k = ground arith

sub_below : (a b : ℕ) → a < b → b < limit → pos a -w pos b ≡ negsuc (b - a - 1)
unfolding ◌-w◌
sub_below a b h k = ground arith

pub add_small : (a b : ℕ) → a < limit → b < limit → pos a +w pos b ≡ pos (a + b)
unfolding ◌+w◌
add_small a b h k = ground arith

-- Where the window begins and ends, from 0, as one formula: half a page above the rank, moved up
-- so far that a page fits below, and never above the top.
abbrev pub first : ℕ → ℕ → ℕ → ℕ
first total rank size = min (rank - size / 2) (total - size)

abbrev pub last : ℕ → ℕ → ℕ → ℕ
last total rank size = first total rank size + min size total - 1

abbrev pub at : ℕ → ℕ → Index
at a b = record { start = pos a; stop = pos b }

at_eq : (a b c d : ℕ) → a ≡ c → b ≡ d → at a b ≡ at c d
at_eq a b c d p q = rw (p, q)

module _ (total rank size : ℕ) (t : total < limit) (r : rank < limit) (s : size < limit) where
  start_lem : at_least_zero (pos rank -w quot (pos size) 2) ≡ pos (rank - size / 2)
  unfolding at_least_zero quot ◌-w◌
  start_lem = ground arith

  fits :
      (a : ℕ)
      → 0 < size
      → a + size - 1 < total
      → window_from (pos total) (pos a) (pos size) ≡ at a (a + size - 1)
  unfolding window_from
  fits a q h =
      rw (add_small a size (omega arith) s)
        (rw (sub_small (a + size) 1 (omega arith) (omega arith)) (ground arith))

  back : 0 < total → at_least_zero (pos (total - 1) -w pos size +w pos 1) ≡ pos (total - size)
  unfolding at_least_zero ◌-w◌ ◌+w◌
  back p = ground arith

  over :
      (a : ℕ)
      → 0 < size
      → 0 < total
      → a < limit
      → total ≤ a + size - 1
      → window_from (pos total) (pos a) (pos size) ≡ at (total - size) (total - 1)
  unfolding window_from
  over a q p k h = rw (add_small a size k s) (
      rw (sub_small (a + size) 1 (omega arith) (omega arith))
        (rw (sub_small total 1 p (omega arith)) (rw (back p) (ground arith))))

  -- The window as a formula: for every positive size and total.
  pub around-window :
      0 < total
      → 0 < size
      → indexes_around (pos total) (pos rank) (pos size)
        ≡ at (first total rank size) (last total rank size)
  unfolding indexes_around
  around-window p q = rw start_lem (elim (Bool-cases (ltb (rank - size / 2 + size - 1) total)) [
    | inl e ↦ fits (rank - size / 2) q (ground arith) ∙ at_eq _ _ _ _ (ground arith) (ground arith)
    | inr e ↦
        over (rank - size / 2) q p (omega arith) (ground arith)
        ∙ at_eq _ _ _ _ (ground arith) (ground arith)
  ])

  -- For a page size from 2 and below 2^62 and a rank on a leaderboard of fewer than 2^62 members,
  -- the window of GetAroundMe is the one of the formula, holds the ranked member, lies within the
  -- leaderboard and is as long as the page or, where there are fewer members, as the leaderboard.
  pub window-holds-rank :
      2 ≤ size
      → 0 < rank
      → rank ≤ total
      → (indexes_around (pos total) (pos rank) (pos size)
          ≡ at (first total rank size) (last total rank size))
        × (first total rank size ≤ rank - 1)
        × (rank - 1 ≤ last total rank size)
        × (last total rank size < total)
        × (last total rank size + 1 - first total rank size ≡ min size total)
  window-holds-rank h p q = (
    around-window (omega arith) (omega arith),
    omega arith,
    omega arith,
    omega arith,
    omega arith,
  )

-- With a page of one and a rank above the last on a leaderboard of fewer than 2^62 members, the
-- window of GetAroundMe is the member after the ranked one.
pub page_of_one_misses :
    (total rank : ℕ)
    → total < limit
    → 0 < rank
    → rank < total
    → indexes_around (pos total) (pos rank) (pos 1) ≡ at rank rank
page_of_one_misses total rank t p h =
    around-window total rank 1 t (omega arith) (omega arith) (omega arith) (omega arith)
    ∙ at_eq _ _ _ _ (omega arith) (omega arith)

negative_start :
    (rank n : ℕ)
    → rank < limit
    → n < limit
    → at_least_zero (pos rank -w quot (sub_ℕ 0 n) 2) ≡ pos (rank + n / 2)
unfolding at_least_zero quot ◌-w◌
negative_start rank zero h b = ground arith
negative_start rank (suc n) h b = ground arith

negative_stop : (a n : ℕ) → a ≤ n → 0 < n → n < limit → pos a +w sub_ℕ 0 n -w pos 1 ≡ negsuc (n - a)
unfolding ◌-w◌ ◌+w◌
negative_stop a zero h p b = absurd (omega arith)
negative_stop a (suc n) h p b = ground arith

-- For a page size -n with n below 2^62 and a rank so near the top that rank + n / 2 is at most n,
-- the window of GetAroundMe begins at rank + n / 2 and ends at an index counted from the end of
-- the leaderboard.
pub negative_page_from_end :
    (total rank n : ℕ)
    → rank + n / 2 ≤ n
    → 0 < n
    → n < limit
    → indexes_around (pos total) (pos rank) (sub_ℕ 0 n)
      ≡ record { start = pos (rank + n / 2); stop = negsuc (n - (rank + n / 2)) }
unfolding indexes_around
negative_page_from_end total rank n h p b =
    rw (negative_start rank n (omega arith) b)
      (unfold window_from in rw (negative_stop (rank + n / 2) n h p b) (ground arith))
