-- ===== src/Database/Served/Members.antt =====
-- GetMembers of the database over a server that answers.

use go_leaderboard.Base.{
  ℕ, ◌≡◌, refl, Bool, true, false, if◌then◌else◌, Option, none, some, List, [], ◌∷◌, map,
  Option-cases, inl, inr,
}
use go_leaderboard.Base.Int.{pos}
use go_leaderboard.Base.Effect.{ok}
use go_leaderboard.Base.Bytes.{Text, eq}
use go_leaderboard.Go.Float.{Float64, to_int}
use go_leaderboard.Go.Time.{Time, zero_time, at}
use go_leaderboard.Redis.Defs.{GoRedis, Z}
use go_leaderboard.Redis.Errors.{new_member_not_found}
use go_leaderboard.Redis.Answers.{Answers}
use go_leaderboard.Redis.Sorted.{position, score_of}
use go_leaderboard.Redis.Sorted.Listed.{Standing, absent, present, standing}
use go_leaderboard.Redis.Standalone as Standalone
use go_leaderboard.Redis.Standalone.{client}
use go_leaderboard.Database.Defs.{DbMember}
use go_leaderboard.Database.Order.{ttl_key}
use go_leaderboard.Database.Ranks.{get_one, get_each, get_members, ttl_or_zero, rank_in}
use go_leaderboard.Database.Served.{Direction, up, down, order_name, in_order}

abbrev pub time_of : Option Float64 → Time
time_of none = zero_time
time_of (some x) = at (to_int x) 0

abbrev pub seen_with : Text → Time → Option Float64 → Option ℕ → Option DbMember
seen_with m t (some x) (some i) = some (record { member = m; score = x; rank = pos i; ttl = t })
seen_with m t _ _ = none

module _ {W : Type 0} (g : GoRedis W) (ranking : W → Text → List Z) (a : Answers g ranking) where
  -- What the sorted sets say of a member: nothing, or its score, rank and time to expire.
  abbrev pub seen : Text → Direction → Bool → W → Text → Option DbMember
  seen k d ttl w m =
      seen_with m (if ttl then time_of (score_of m (ranking w (ttl_key k))) else zero_time)
        (score_of m (ranking w k)) (position m (in_order d (ranking w k)))

  ttl_or_zero-time :
      (k m : Text) (ttl : Bool) (w : W)
      → ttl_or_zero (client g) ttl k m w
        ≡ (ok (if ttl then time_of (score_of m (ranking w (ttl_key k))) else zero_time), w)
  unfolding ttl_or_zero Standalone.zscore new_member_not_found eq
  ttl_or_zero-time k m false w = refl
  ttl_or_zero-time k m true w =
      rw (a.zscore_lem (ttl_key k) m w) (elim (Option-cases (score_of m (ranking w (ttl_key k)))) [
        | inl e ↦ rw e refl
        | inr (x, e) ↦ rw e refl
      ])

  rank_in-position :
      (k m : Text) (d : Direction) (w : W) (i : ℕ)
      → position m (in_order d (ranking w k)) ≡ some i
      → rank_in (client g) (order_name d) k m w ≡ (ok (pos i), w)
  unfolding rank_in Standalone.zrank Standalone.zrevrank new_member_not_found eq
  rank_in-position k m up w i e = rw (a.zrank_lem k m w) (rw e refl)
  rank_in-position k m down w i e = rw (a.zrevrank_lem k m w) (rw e refl)

  get_one-present :
      (k m : Text) (d : Direction) (ttl : Bool) (w : W) (x : Float64) (i : ℕ)
      → score_of m (ranking w k) ≡ some x
      → position m (in_order d (ranking w k)) ≡ some i
      → get_one (client g) k (order_name d) ttl m w ≡ (ok (seen k d ttl w m), w)
  unfolding get_one Standalone.zscore
  get_one-present k m d ttl w x i s p =
      rw (a.zscore_lem k m w)
        (rw s (rw (rank_in-position k m d w i p, ttl_or_zero-time k m ttl w) (rw p refl)))

  get_one-seen :
      (k m : Text) (d : Direction) (ttl : Bool) (w : W)
      → get_one (client g) k (order_name d) ttl m w ≡ (ok (seen k d ttl w m), w)
  get_one-seen k m d ttl w = by_standing d (standing m (ranking w k))
    where
      by_standing :
          (d : Direction)
          → Standing m (ranking w k)
          → get_one (client g) k (order_name d) ttl m w ≡ (ok (seen k d ttl w m), w)
      by_standing d (absent s p q) =
          unfold get_one Standalone.zscore new_member_not_found eq in
          rw (a.zscore_lem k m w) (rw s refl)
      by_standing up (present x i j s p q) = get_one-present k m up ttl w x i s p
      by_standing down (present x i j s p q) = get_one-present k m down ttl w x j s q

  get_each-seen :
      (k : Text) (d : Direction) (ttl : Bool) (w : W) (ms : List Text)
      → get_each (client g) k (order_name d) ttl ms w ≡ (ok (map (seen k d ttl w) ms), w)
  unfolding get_each
  get_each-seen k d ttl w [] = refl
  get_each-seen k d ttl w (m ∷ ms) =
      rw (get_one-seen k m d ttl w) (rw (get_each-seen k d ttl w ms) refl)

  -- Over a server that answers, GetMembers of the database returns one entry for each member asked
  -- for, in the order asked: none for a member without a score, and else its score, its rank in
  -- the order asked and, if asked for, its time to expire, the zero time if it has none.
  pub get_members-seen :
      (k : Text) (d : Direction) (ttl : Bool) (w : W) (ms : List Text)
      → get_members (client g) k (order_name d) ttl ms w ≡ (ok (map (seen k d ttl w) ms), w)
  unfolding get_members eq
  get_members-seen k up ttl w ms = get_each-seen k up ttl w ms
  get_members-seen k down ttl w ms = get_each-seen k down ttl w ms
