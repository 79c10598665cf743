-- ===== src/Service/Reads/Served.antt =====
-- GetMember, GetMembers and GetRank over a server that answers.
use mathlib.Core.List.{Permᴰ}
use go_leaderboard.Base.{
  ◌≡◌, refl, subst, arith, Bool, true, false, if◌then◌else◌, Option, none, some, List, [], ◌∷◌, map,
  Option-cases, inl, inr, ℕ, ◌+◌, ◌<◌, length,
}
use go_leaderboard.Base.Int.{ℤ, pos}
use go_leaderboard.Base.Effect.{Outcome, ok, err}
use go_leaderboard.Base.Bytes.{Text}
use go_leaderboard.Go.Time.{Time, unix, zero_time}
use go_leaderboard.Redis.Defs.{GoRedis, Z}
use go_leaderboard.Redis.Answers.{Answers}
use go_leaderboard.Redis.Sorted.{position, score_of}
use go_leaderboard.Redis.Sorted.Listed.{Standing, absent, present, standing}
use go_leaderboard.Go.Float.{Float64, to_int}
use go_leaderboard.Database.Order.{ttl_key}
use go_leaderboard.Database.Defs.{DbMember}
use go_leaderboard.Database.Served.{Direction, up, down, order_name, in_order, get_rank-position}
use go_leaderboard.Database.Served.Members.{seen, seen_with, time_of, get_members-seen}
use go_leaderboard.Service.Errors.{ServiceError, member_not_found}
use go_leaderboard.Service.Defs.{Member}
use go_leaderboard.Service.Pages.Served.{service, length-in_order}
use go_leaderboard.Service.Around.Window.{limit, add_small}
use go_leaderboard.Service.Around.Served.{position-lt-length}
use go_leaderboard.Service.Reads.{
  member_of, found_members, sort_by_rank, get_member, get_members, get_rank,
}
use go_leaderboard.Service.Reads.Sorted.{ByRank, sort_by_rank-ByRank, sort_by_rank-perm}

-- The time to expire in seconds, if it is asked for and there is one.
abbrev pub seconds_of : Bool → Option Float64 → ℤ
seconds_of true (some x) = to_int x
seconds_of _ _ = pos 0

abbrev pub rank_of : Option ℕ → ℤ
rank_of none = pos 0
rank_of (some i) = pos (i + 1)

-- A member in front of a list, if it has a score.
abbrev pub told : Text → Option Float64 → Option ℕ → ℤ → List Member → List Member
told m none i t ms = ms
told m (some x) i t ms =
    record {
      public_id = m;
      score = to_int x;
      rank = rank_of i;
      previous_rank = pos 0;
      expire_at = t;
    }
    ∷ ms

found-told :
    (m : Text) (ttl : Bool) (o : Option Float64) (x : Float64) (i : ℕ) (ds : List (Option DbMember))
    (ms : List Member)
    → i < limit
    → found_members ds ≡ ms
    → found_members (seen_with m (if ttl then time_of o else zero_time) (some x) (some i) ∷ ds)
      ≡ told m (some x) (some i) (seconds_of ttl o) ms
unfolding found_members member_of unix
found-told m true none x i ds ms h e = rw (e, add_small i 1 h (omega arith)) refl
found-told m true (some y) x i ds ms h e = rw (e, add_small i 1 h (omega arith)) refl
found-told m false o x i ds ms h e = rw (e, add_small i 1 h (omega arith)) refl

module _ {W : Type 0} (g : GoRedis W) (ranking : W → Text → List Z) (a : Answers g ranking)
    (clock : W → Time × W) where
  abbrev pub member_outcome : Text → Text → Option DbMember → Outcome ServiceError Member
  member_outcome lb m none = err (member_not_found lb m)
  member_outcome lb m (some d) = ok (member_of d)

  -- Over a server that answers, GetMember returns the score, the rank and, if asked for, the time
  -- to expire that the sorted sets have for the member, or MemberNotFoundError if they have no
  -- score for it.
  pub get_member-seen :
      (lb m : Text) (d : Direction) (ttl : Bool) (w : W)
      → get_member (service g clock) lb m (order_name d) ttl w
        ≡ (member_outcome lb m (seen g ranking a lb d ttl w m), w)
  unfolding get_member
  get_member-seen lb m d ttl w =
      rw (get_members-seen g ranking a lb d ttl w (m ∷ []))
        (elim (Option-cases (seen g ranking a lb d ttl w m)) [
          | inl e ↦ rw e refl
          | inr (x, e) ↦ rw e refl
        ])

  pub get_members-found :
      (lb : Text) (ms : List Text) (d : Direction) (ttl : Bool) (w : W)
      → get_members (service g clock) lb ms (order_name d) ttl w
        ≡ (ok (sort_by_rank (found_members (map (seen g ranking a lb d ttl w) ms))), w)
  unfolding get_members
  get_members-found lb ms d ttl w = rw (get_members-seen g ranking a lb d ttl w ms) refl

  -- The members of a list that have a score, with the score, the rank from 1 and the time to expire.
  abbrev pub with_scores : Text → Direction → Bool → W → List Text → List Member
  with_scores lb d ttl w [] = []
  with_scores lb d ttl w (m ∷ ms) =
      told m (score_of m (ranking w lb)) (position m (in_order d (ranking w lb)))
        (seconds_of ttl (score_of m (ranking w (ttl_key lb)))) (with_scores lb d ttl w ms)

  found-with_scores :
      (lb : Text) (ms : List Text) (d : Direction) (ttl : Bool) (w : W)
      → length (ranking w lb) < limit
      → found_members (map (seen g ranking a lb d ttl w) ms) ≡ with_scores lb d ttl w ms
  unfolding found_members
  found-with_scores lb [] d ttl w few = refl
  found-with_scores lb (m ∷ ms) d ttl w few =
      from d (standing m (ranking w lb)) (found-with_scores lb ms d ttl w few)
    where
      below_limit :
          (d : Direction) (i : ℕ) → position m (in_order d (ranking w lb)) ≡ some i → i < limit
      below_limit d i p = omega (
        arith,
        position-lt-length m (in_order d (ranking w lb)) i p,
        length-in_order d (ranking w lb),
      )

      from :
          (d : Direction)
          → Standing m (ranking w lb)
          → found_members (map (seen g ranking a lb d ttl w) ms) ≡ with_scores lb d ttl w ms
          → found_members (map (seen g ranking a lb d ttl w) (m ∷ ms))
            ≡ with_scores lb d ttl w (m ∷ ms)
      from d (absent s p q) rest = rw s rest
      from up (present x i j s p q) rest =
          rw (s, p)
            (found-told m ttl (score_of m (ranking w (ttl_key lb))) x i
              (map (seen g ranking a lb up ttl w) ms) (with_scores lb up ttl w ms)
              (below_limit up i p) rest)
      from down (present x i j s p q) rest =
          rw (s, q)
            (found-told m ttl (score_of m (ranking w (ttl_key lb))) x j
              (map (seen g ranking a lb down ttl w) ms) (with_scores lb down ttl w ms)
              (below_limit down j q) rest)

  -- Over a server that answers, with fewer than 2^62 members, GetMembers returns a list in the
  -- order of the ranks and leaves the server as it was; the list is a permutation of the members
  -- asked for that have a score in the sorted set, each with the whole part of that score, its
  -- rank from 1 in the order asked and, if asked for, the time in the sorted set of times, and
  -- else 0.
  pub get_members-sorted :
      (lb : Text) (ms : List Text) (d : Direction) (ttl : Bool) (w : W)
      → length (ranking w lb) < limit
      → (rs : List Member) × (get_members (service g clock) lb ms (order_name d) ttl w ≡ (ok rs, w))
        × ByRank rs
        × Permᴰ rs (with_scores lb d ttl w ms)
  get_members-sorted lb ms d ttl w few =
      let found = found_members (map (seen g ranking a lb d ttl w) ms) in
      (
        sort_by_rank found,
        get_members-found lb ms d ttl w,
        sort_by_rank-ByRank found,
        subst (λ (ms' : List Member). Permᴰ (sort_by_rank found) ms')
            (found-with_scores lb ms d ttl w few) (sort_by_rank-perm found),
      )

  abbrev pub rank_from_one : Text → Text → Option ℕ → Outcome ServiceError ℤ
  rank_from_one lb m none = err (member_not_found lb m)
  rank_from_one lb m (some i) = ok (pos (i + 1))

  -- Over a server that answers, with fewer than 2^62 members, GetRank returns the position in the
  -- ranking counted from 1, or MemberNotFoundError for a member that is not on the leaderboard.
  pub get_rank-from_one :
      (lb m : Text) (d : Direction) (w : W)
      → length (ranking w lb) < limit
      → get_rank (service g clock) lb m (order_name d) w
        ≡ (rank_from_one lb m (position m (in_order d (ranking w lb))), w)
  unfolding get_rank
  get_rank-from_one lb m d w h =
      rw (get_rank-position g ranking a lb m d w)
        (elim (Option-cases (position m (in_order d (ranking w lb)))) [
          | inl e ↦ rw e refl
          | inr (i, e) ↦ rw e (rw (add_small i 1 (short i e) (omega arith)) refl)
        ])
    where
      short : (i : ℕ) → position m (in_order d (ranking w lb)) ≡ some i → i < limit
      short i e = omega (
        arith,
        position-lt-length m (in_order d (ranking w lb)) i e,
        length-in_order d (ranking w lb),
      )
