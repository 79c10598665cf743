-- ===== src/Database/Served.antt =====
-- The database over a server that answers: what each read returns, from the sorted sets alone.
pub mod Members
pub mod Names
use mathlib.Core.List.{reverse}
use go_leaderboard.Base.{
  ℕ, zero, suc, ◌+◌, ◌≡◌, refl, ap, ◌∙◌, sym, ==_iff, arith, ◌==◌, Bool, true, false, if◌then◌else◌,
  Option, none, some, List, [], ◌∷◌, map, length, Bool-cases, Option-cases, inl, inr, ◌⊎◌,
}
use go_leaderboard.Base.Int.{ℤ, pos}
use go_leaderboard.Base.Effect.{Outcome, ok, err}
use go_leaderboard.Base.Bytes.{Text, codes, eq}
use go_leaderboard.Redis.Defs.{GoRedis, Z, RedisMember}
use go_leaderboard.Redis.Answers.{Answers}
use go_leaderboard.Redis.Sorted.{slice, position, score_of}
use go_leaderboard.Redis.Standalone as Standalone
use go_leaderboard.Redis.Standalone.{client}
use go_leaderboard.Redis.Errors.{new_member_not_found}
use go_leaderboard.Go.Float.{Float64}
use go_leaderboard.Database.Errors.{DbError, member_not_found}
use go_leaderboard.Database.Defs.{DbMember}
use go_leaderboard.Database.Order.{asc, desc}
use go_leaderboard.Database.Ranks.{
  get_total_members, get_rank, get_ordered_members, get_members, numbered,
}

pub data Direction : Type 0 where
  up down : Direction

abbrev pub order_name : Direction → Text
order_name up = asc
order_name down = desc

abbrev pub in_order : Direction → List Z → List Z
in_order up zs = zs
in_order down zs = reverse zs

abbrev pub of_z : Z → RedisMember
of_z z = record { member = z.member; score = z.score }

module _ {W : Type 0} (g : GoRedis W) (ranking : W → Text → List Z) (a : Answers g ranking) where
  -- Over a server that answers, GetTotalMembers returns the number of entries of the sorted set, 0
  -- for a key that is not there.
  pub get_total_members-length :
      (k : Text) (w : W) → get_total_members (client g) k w ≡ (ok (pos (length (ranking w k))), w)
  unfolding get_total_members Standalone.zcard
  get_total_members-length k w =
      rw (a.zcard_lem k w) (elim (Bool-cases (length (ranking w k) == 0)) [
        | inl e ↦ rw e (ap (λ (n : ℕ). (ok (pos n), w)) (sym ((==_iff _ _).0 e)))
        | inr e ↦ rw e refl
      ])

  -- Over a server that answers, GetOrderedMembers returns the entries between two indexes, which
  -- may count from the end, of the ranking in the order asked, and ranks them from the first index
  -- on.
  pub get_ordered_members-slice :
      (k : Text) (i j : ℤ) (d : Direction) (w : W)
      → get_ordered_members (client g) k i j (order_name d) w
        ≡ (ok (numbered i (map of_z (slice i j (in_order d (ranking w k))))), w)
  unfolding get_ordered_members Standalone.zrange Standalone.zrevrange eq
  get_ordered_members-slice k i j up w = rw (a.zrange_lem k i j w)
  get_ordered_members-slice k i j down w = rw (a.zrevrange_lem k i j w)

  abbrev pub rank_outcome : Text → Text → Option ℕ → Outcome DbError ℤ
  rank_outcome k m none = err (member_not_found k m)
  rank_outcome k m (some i) = ok (pos i)

  -- Over a server that answers, GetRank of the database returns the position of the member in the
  -- ranking in the order asked, from 0, or MemberNotFoundError.
  pub get_rank-position :
      (k m : Text) (d : Direction) (w : W)
      → get_rank (client g) k m (order_name d) w
        ≡ (rank_outcome k m (position m (in_order d (ranking w k))), w)
  unfolding get_rank Standalone.zrank Standalone.zrevrank new_member_not_found eq
  get_rank-position k m up w =
      rw (a.zrank_lem k m w) (elim (Option-cases (position m (ranking w k))) [
        | inl e ↦ rw e refl
        | inr (i, e) ↦ rw e refl
      ])
  get_rank-position k m down w =
      rw (a.zrevrank_lem k m w) (elim (Option-cases (position m (reverse (ranking w k)))) [
        | inl e ↦ rw e refl
        | inr (i, e) ↦ rw e refl
      ])
