-- ===== src/Service/Around/Served.antt =====
-- GetAroundMe over a server that answers.
use Prim.Native.Nat.{min}
use go_leaderboard.Base.{
  ℕ, zero, suc, ◌+◌, ◌-◌, ◌<◌, ◌≡◌, refl, ap, arith, Bool, true, false, none, some, List, [], ◌∷◌,
  map, length, length-take, take, drop,
}
use go_leaderboard.Base.Int.{pos}
use go_leaderboard.Base.Effect.{ok, err}
use go_leaderboard.Base.Bytes.{Text}
use go_leaderboard.Go.Time.{Time}
use go_leaderboard.Redis.Defs.{GoRedis, Z}
use go_leaderboard.Redis.Answers.{Answers}
use go_leaderboard.Redis.Sorted.{slice, position}
use go_leaderboard.Database.Ranks.{numbered}
use go_leaderboard.Database.Served.{
  Direction, order_name, in_order, of_z, get_total_members-length, get_ordered_members-slice,
  get_rank-position,
}
use go_leaderboard.Service.Errors.{member_not_found}
use go_leaderboard.Service.Defs.{Member}
use go_leaderboard.Service.Members.{convert_members, fetch_member_rank}
use go_leaderboard.Service.Pages.Served.{service, ranked, convert-numbered, length-in_order}
use go_leaderboard.Service.Around.Window.{limit, first, last, add_small, around-window}
use go_leaderboard.Service.Around.{calculate_indexes_around_member_rank, get_around_me}

pub position-lt-length : (m : Text) (zs : List Z) (i : ℕ) → position m zs ≡ some i → i < length zs
unfolding position
position-lt-length m [] i e = cc
position-lt-length m (z ∷ zs) zero e = omega arith
position-lt-length m (z ∷ zs) (suc i) e = omega (arith, position-lt-length m zs i (ground arith))

slice-window :
    (f n : ℕ) (zs : List Z) → 0 < n → slice (pos f) (pos (f + n - 1)) zs ≡ take n (drop f zs)
unfolding slice
slice-window f n zs q = ap (λ (m : ℕ). take m (drop f zs)) (omega arith)

module _ {W : Type 0} (g : GoRedis W) (ranking : W → Text → List Z) (a : Answers g ranking)
    (clock : W → Time × W) where
  -- The members around a rank, as the window formula has them.
  abbrev pub around : Text → Direction → W → ℕ → ℕ → List Member
  around lb d w rank size =
      let total = length (ranking w lb) in
      ranked (first total rank size)
        (take (min size total) (drop (first total rank size) (in_order d (ranking w lb))))

  -- What follows the rank, in both operations that look around one.
  pub window_members :
      (lb : Text) (d : Direction) (w : W) (rank size : ℕ)
      → 0 < size
      → 0 < length (ranking w lb)
      → length (ranking w lb) + length (ranking w lb) < limit
      → convert_members (
          numbered (pos (first (length (ranking w lb)) rank size)) (
            map of_z (
              slice
                (pos (first (length (ranking w lb)) rank size))
                (pos (last (length (ranking w lb)) rank size))
                (in_order d (ranking w lb)))))
        ≡ around lb d w rank size
  window_members lb d w rank size q p h =
      rw
        (slice-window (first (length (ranking w lb)) rank size) (min size (length (ranking w lb)))
          (in_order d (ranking w lb)) (omega arith))
        (convert-numbered (first (length (ranking w lb)) rank size) _ (
          omega (
            arith,
            length-take (min size (length (ranking w lb)))
                (drop (first (length (ranking w lb)) rank size) (in_order d (ranking w lb))),
          )))

  -- The rest of GetAroundMe, once the rank from 1 is known.
  from_rank :
      (lb m : Text) (d : Direction) (last_if : Bool) (w : W) (rank size : ℕ)
      → 0 < size
      → size < limit
      → 0 < length (ranking w lb)
      → length (ranking w lb) + length (ranking w lb) < limit
      → rank < limit
      → fetch_member_rank (service g clock) lb m (order_name d) last_if w ≡ (ok (pos rank), w)
      → get_around_me (service g clock) lb (pos size) m (order_name d) last_if w
        ≡ (ok (around lb d w rank size), w)
  unfolding get_around_me calculate_indexes_around_member_rank
  from_rank lb m d last_if w rank size q hs p h hr e = rw e (
      rw (get_total_members-length g ranking a lb w) (
        rw (around-window (length (ranking w lb)) rank size (omega arith) hr hs p q) (
          rw
            (get_ordered_members-slice g ranking a lb
              (pos (first (length (ranking w lb)) rank size))
              (pos (last (length (ranking w lb)) rank size)) d w)
            (rw (window_members lb d w rank size q p h) refl))))

  pub fetch-found :
      (lb m : Text) (d : Direction) (last_if : Bool) (w : W) (i : ℕ)
      → position m (in_order d (ranking w lb)) ≡ some i
      → i < limit
      → fetch_member_rank (service g clock) lb m (order_name d) last_if w ≡ (ok (pos (i + 1)), w)
  unfolding fetch_member_rank
  fetch-found lb m d last_if w i e h =
      rw (get_rank-position g ranking a lb m d w) (rw e (rw (add_small i 1 h (omega arith)) refl))

  -- Over a server that answers, for a member at position i of the ranking in the order asked, a
  -- page size from 1 and below 2^62 and fewer than 2^61 members, GetAroundMe returns the members
  -- of the window: it begins half a page above the rank, moved up so far that a whole page fits,
  -- and holds a page or, if there are fewer, all members, each with its rank from 1.
  pub get_around_me-found :
      (lb m : Text) (d : Direction) (last_if : Bool) (w : W) (i size : ℕ)
      → position m (in_order d (ranking w lb)) ≡ some i
      → 0 < size
      → size < limit
      → length (ranking w lb) + length (ranking w lb) < limit
      → get_around_me (service g clock) lb (pos size) m (order_name d) last_if w
        ≡ (ok (around lb d w (i + 1) size), w)
  get_around_me-found lb m d last_if w i size e q hs h =
      from_rank lb m d last_if w (i + 1) size q hs (omega (arith, inside)) h (omega (arith, inside))
        (fetch-found lb m d last_if w i e (omega (arith, inside)))
    where
      inside : i < length (ranking w lb)
      inside = omega (
        arith,
        position-lt-length m (in_order d (ranking w lb)) i e,
        length-in_order d (ranking w lb),
      )

  -- Over a server that answers, for a member that is not on a leaderboard of at least one and
  -- fewer than 2^61 members and a page size from 1 and below 2^62, GetAroundMe fails with
  -- MemberNotFoundError if the last members were not asked for, and else returns the window around
  -- the rank after the last.
  pub get_around_me-missing :
      (lb m : Text) (d : Direction) (w : W) (size : ℕ)
      → position m (in_order d (ranking w lb)) ≡ none
      → 0 < size
      → size < limit
      → 0 < length (ranking w lb)
      → length (ranking w lb) + length (ranking w lb) < limit
      → (get_around_me (service g clock) lb (pos size) m (order_name d) false w
          ≡ (err (member_not_found lb m), w))
        × (get_around_me (service g clock) lb (pos size) m (order_name d) true w
            ≡ (ok (around lb d w (length (ranking w lb) + 1) size), w))
  get_around_me-missing lb m d w size e q hs p h = (
    unfold get_around_me fetch_member_rank in
        rw (get_rank-position g ranking a lb m d w) (rw e refl),
    from_rank lb m d true w (length (ranking w lb) + 1) size q hs p h (omega arith) (
        unfold fetch_member_rank in
        rw (get_rank-position g ranking a lb m d w) (
          rw e (
            rw (get_total_members-length g ranking a lb w)
              (rw (add_small (length (ranking w lb)) 1 (omega arith) (omega arith)) refl)))),
  )
