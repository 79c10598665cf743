-- ===== src/Service/Around/Score.antt =====
-- GetAroundScore over a server that answers.
use mathlib.Core.List.{reverse}
use go_leaderboard.Base.{
  ℕ, ◌+◌, ◌<◌, ◌≡◌, refl, ap, arith, true, Option, none, some, List, [], ◌∷◌, length, take,
  Option-cases, inl, inr,
}
use go_leaderboard.Base.Int.{ℤ, pos}
use go_leaderboard.Base.Effect.{ok}
use go_leaderboard.Base.Bytes.{Text}
use go_leaderboard.Go.Word.{IsInt64}
use go_leaderboard.Go.Float.{of_int}
use go_leaderboard.Go.Time.{Time}
use go_leaderboard.Redis.Defs.{GoRedis, Z}
use go_leaderboard.Redis.Answers.{Answers}
use go_leaderboard.Redis.Removes.{Removes, due}
use go_leaderboard.Redis.Sorted.{position}
use go_leaderboard.Redis.Standalone as Standalone
use go_leaderboard.Database.Ranks.{get_member_ids_with_score_inside_range}
use go_leaderboard.Database.Served.{
  Direction, order_name, in_order, get_total_members-length, get_ordered_members-slice,
  get_rank-position,
}
use go_leaderboard.Service.Members.{fetch_member_rank}
use go_leaderboard.Service.Pages.Served.{service, length-in_order}
use go_leaderboard.Service.Around.{
  first_or_empty, calculate_indexes_around_member_rank, get_member_id_with_closest_score,
  get_around_score,
}
use go_leaderboard.Service.Around.Window.{limit, first, last, add_small, around-window}
use go_leaderboard.Service.Around.Served.{around, window_members, position-lt-length}

-- The rank from 1 of a position, or the one after the last.
abbrev pub rank_or_next : Option ℕ → ℕ → ℕ
rank_or_next none total = total + 1
rank_or_next (some i) total = i + 1

take-first : (ms : List Text) → first_or_empty (take 1 ms) ≡ first_or_empty ms
take-first [] = refl
take-first (m ∷ ms) = refl

module _ {W : Type 0} (g : GoRedis W) (ranking : W → Text → List Z) (sets : W → Text → List Text)
    (a : Answers g ranking) (r : Removes g ranking sets) (clock : W → Time × W) where
  -- The last member of the sorted set whose score is not above the one given, or no text.
  abbrev pub closest : Text → ℤ → W → Text
  closest lb score w = first_or_empty (reverse (due (of_int score) (ranking w lb)))

  closest-found :
      (lb : Text) (score : ℤ) (w : W)
      → IsInt64 score
      → get_member_id_with_closest_score (service g clock) lb score w ≡ (ok (closest lb score w), w)
  unfolding get_member_id_with_closest_score get_member_ids_with_score_inside_range
      Standalone.zrevrange_by_score
  closest-found lb score w b =
      rw (r.due_last_lem lb score 1 w (omega arith) b)
        (ap (λ (m : Text). (ok m, w)) (take-first (reverse (due (of_int score) (ranking w lb)))))

  abbrev rank_of : Text → Text → Direction → W → ℕ
  rank_of lb m d w = rank_or_next (position m (in_order d (ranking w lb))) (length (ranking w lb))

  fetch-any :
      (lb m : Text) (d : Direction) (w : W)
      → length (ranking w lb) < limit
      → fetch_member_rank (service g clock) lb m (order_name d) true w
        ≡ (ok (pos (rank_of lb m d w)), w)
  unfolding fetch_member_rank
  fetch-any lb m d w h =
      rw (get_rank-position g ranking a lb m d w)
        (elim (Option-cases (position m (in_order d (ranking w lb)))) [
          | inl e ↦ rw e (
              rw (get_total_members-length g ranking a lb w)
                (rw (add_small (length (ranking w lb)) 1 h (omega arith)) refl))
          | inr (i, e) ↦
              rw e (rw (add_small i 1 (omega (arith, inside lb m d w i e)) (omega arith)) refl)
        ])
    where
      inside :
          (lb m : Text) (d : Direction) (w : W) (i : ℕ)
          → position m (in_order d (ranking w lb)) ≡ some i
          → i < length (ranking w lb)
      inside lb m d w i e = omega (
        arith,
        position-lt-length m (in_order d (ranking w lb)) i e,
        length-in_order d (ranking w lb),
      )

  rank_of-le : (lb m : Text) (d : Direction) (w : W) → rank_of lb m d w < length (ranking w lb) + 2
  rank_of-le lb m d w = elim (Option-cases (position m (in_order d (ranking w lb)))) [
    | inl e ↦ rw e (omega arith)
    | inr (i, e) ↦ rw e (
        omega (
          arith,
          position-lt-length m (in_order d (ranking w lb)) i e,
          length-in_order d (ranking w lb),
        ))
  ]

  -- Over a server that answers, for a 64-bit score, a page size from 1 and below 2^62 and a
  -- leaderboard of at least one and fewer than 2^61 members, GetAroundScore returns the window of
  -- GetAroundMe around the last member, lowest score first, whose score is not above the one
  -- given, at its rank in the order asked; if there is no such member, it is the window around the
  -- member with the empty id, and, if the leaderboard has none, around the rank after the last, in
  -- either order.
  pub get_around_score-closest :
      (lb : Text) (d : Direction) (score : ℤ) (w : W) (size : ℕ)
      → IsInt64 score
      → 0 < size
      → size < limit
      → 0 < length (ranking w lb)
      → length (ranking w lb) + length (ranking w lb) < limit
      → get_around_score (service g clock) lb (pos size) score (order_name d) w
        ≡ (ok (around g ranking a clock lb d w (rank_of lb (closest lb score w) d w) size), w)
  unfolding get_around_score calculate_indexes_around_member_rank
  get_around_score-closest lb d score w size b q hs p h =
      let total = length (ranking w lb) in
      let rank = rank_of lb (closest lb score w) d w in
      rw (closest-found lb score w b) (
        rw (fetch-any lb (closest lb score w) d w (omega arith)) (
          rw (get_total_members-length g ranking a lb w) (
            rw
              (around-window total rank size (omega arith)
                (omega (arith, rank_of-le lb (closest lb score w) d w)) hs p q)
              (rw
                (get_ordered_members-slice g ranking a lb (pos (first total rank size))
                  (pos (last total rank size)) d w)
                (rw (window_members g ranking a clock lb d w rank size q p h) refl)))))
