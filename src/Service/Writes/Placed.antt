-- ===== src/Service/Writes/Placed.antt =====
-- What the writes of one member have in common, over a server that answers.
use mathlib.Core.List.{reverse}
use go_leaderboard.Base.{
  ℕ, suc, ◌+◌, ◌≤◌, ◌<◌, ◌≡◌, refl, ap, ◌∙◌, arith, Bool, true, false, if◌then◌else◌, Option, none,
  some, List, [], ◌∷◌, length,
}
use go_leaderboard.Base.Int.{ℤ, pos, negsuc}
use go_leaderboard.Base.Effect.{ok}
use go_leaderboard.Base.Bytes.{Text, eq, eq_refl}
use go_leaderboard.Go.Float.{Float64, of_int, to_int}
use go_leaderboard.Go.Time.{Time, unix}
use go_leaderboard.Redis.Defs.{GoRedis, Z}
use go_leaderboard.Redis.Answers.{Answers}
use go_leaderboard.Redis.Sorted.{position, score_of, add_one, add_all, place, without}
use go_leaderboard.Redis.Sorted.Listed.{
  Standing, absent, present, standing, score_of-add_one, position-add_one,
}
use go_leaderboard.Redis.Standalone as Standalone
use go_leaderboard.Redis.Standalone.{client}
use go_leaderboard.Database.Scores.{set_members, with_score}
use go_leaderboard.Database.Order.{desc}
use go_leaderboard.Database.Served.{down}
use go_leaderboard.Database.Served.Members.{seen, get_members-seen}
use go_leaderboard.Expiration.Name.{get_expire_at, no_expiration}
use go_leaderboard.Service.Defs.{Member}
use go_leaderboard.Service.Members.{
  previous_rank_of, with_previous_ranks, get_database_members, scored, set_members_previous_rank,
  persist_members, set_members_values, ensure_by_name, persist_leaderboard_expiration_time,
  with_values,
}
use go_leaderboard.Service.Pages.Served.{service, length-in_order}
use go_leaderboard.Service.Around.Window.{limit, add_small}
use go_leaderboard.Service.Around.Served.{position-lt-length}
use go_leaderboard.Service.Writes.{new_member, store_ttl, previous_ranks, after_scores}

abbrev pub entry : Text → ℤ → Z
entry m score = record { member = m; score = of_int score }

-- A rank from 1, or -1.
-- The member that SetMemberScore answers with, for a name without an expiration.
abbrev pub written : Text → ℤ → ℕ → ℤ → Member
written m score j previous = record {
  public_id = m;
  score = score;
  rank = pos (j + 1);
  previous_rank = previous;
  expire_at = pos 0;
}

abbrev pub rank_or_minus : Option ℕ → ℤ
rank_or_minus none = negsuc 0
rank_or_minus (some i) = pos (i + 1)

pub length-without : (m : Text) (zs : List Z) → length (without m zs) ≤ length zs
unfolding without
length-without m [] = omega arith
length-without m (z ∷ zs) = ground (arith, length-without m zs)

length-place : (z : Z) (zs : List Z) → length (place z zs) ≡ suc (length zs)
unfolding place
length-place z [] = refl
length-place z (y ∷ ys) = ground (arith, length-place z ys)

pub length-add_one : (z : Z) (zs : List Z) → length (add_one z zs) ≤ suc (length zs)
unfolding add_one
length-add_one z zs =
    omega (arith, length-place z (without z.member zs), length-without z.member zs)

module _ {W : Type 0} (g : GoRedis W) (ranking : W → Text → List Z) (a : Answers g ranking)
    (clock : W → Time × W) (still : (w : W) → (clock w).1 ≡ w) where
  pub seen-rank :
      (lb m : Text) (w : W)
      → length (ranking w lb) < limit
      → previous_rank_of (seen g ranking a lb down true w m)
        ≡ rank_or_minus (position m (reverse (ranking w lb)))
  unfolding previous_rank_of
  seen-rank lb m w h = by_standing (standing m (ranking w lb))
    where
      by_standing :
          Standing m (ranking w lb)
          → previous_rank_of (seen g ranking a lb down true w m)
            ≡ rank_or_minus (position m (reverse (ranking w lb)))
      by_standing (absent s p q) = rw (s, q)
      by_standing (present x i j s p q) = rw (s, q) (add_small j 1 (below_limit j q) (omega arith))
        where
          below_limit : (j : ℕ) → position m (reverse (ranking w lb)) ≡ some j → j < limit
          below_limit j q = omega (
            arith,
            position-lt-length m (reverse (ranking w lb)) j q,
            length-in_order down (ranking w lb),
          )

  abbrev pub rank_before : Text → Text → Bool → W → ℤ
  rank_before lb m prev w =
      if prev then rank_or_minus (position m (reverse (ranking w lb))) else pos 0

  pub previous_ranks-served :
      (label lb m : Text) (score : ℤ) (prev : Bool) (w : W)
      → length (ranking w lb) < limit
      → previous_ranks (service g clock) label lb (new_member m score ∷ []) prev w
        ≡ (ok (record (new_member m score) { previous_rank = rank_before lb m prev w } ∷ []), w)
  unfolding previous_ranks
  previous_ranks-served label lb m score false w h = refl
  previous_ranks-served label lb m score true w h =
      unfold set_members_previous_rank get_database_members with_previous_ranks in
      rw (get_members-seen g ranking a lb down true w (m ∷ [])) (rw (seen-rank lb m w h) refl)

  persist_members-served :
      (lb : Text) (p : Member) (w : W)
      → (w' : W) × (persist_members (service g clock) lb (p ∷ []) w ≡ (ok tt, w'))
        × ((k : Text)
            → ranking w' k ≡ (
                if eq lb k
                then add_one (entry p.public_id p.score) (ranking w lb)
                else ranking w k))
  unfolding persist_members scored set_members with_score Standalone.zadd add_all
  persist_members-served lb p w =
      let (n, w', e, r) = a.zadd_lem lb (entry p.public_id p.score ∷ []) w (omega arith) in
      (w', rw e refl, r)

  pub set_members_values-served :
      (lb : Text) (p : Member) (w : W) (x : Float64) (j : ℕ)
      → score_of p.public_id (ranking w lb) ≡ some x
      → position p.public_id (reverse (ranking w lb)) ≡ some j
      → j + 1 < limit
      → set_members_values (service g clock) lb (p ∷ []) desc w
        ≡ (ok (record p { rank = pos (j + 1); score = to_int x } ∷ []), w)
  unfolding set_members_values get_database_members with_values
  set_members_values-served lb p w x j s q h =
      rw (get_members-seen g ranking a lb down true w (p.public_id ∷ []))
        (rw (s, q) (rw (add_small j 1 (omega arith) (omega arith)) refl))

  pub persist_expiration-plain :
      (lb : Text) (w : W)
      → ((t : ℤ) → get_expire_at t lb ≡ ok no_expiration)
      → persist_leaderboard_expiration_time (service g clock) lb w ≡ (ok tt, w)
  unfolding persist_leaderboard_expiration_time ensure_by_name
  persist_expiration-plain lb w plain =
      rw (plain (unix (clock w).0)) (ap (λ (u : W). (ok tt, u)) (still w))

  pub after_scores-served :
      (label lb : Text) (p : Member) (w : W) (x : Float64) (j : ℕ)
      → score_of p.public_id (ranking w lb) ≡ some x
      → position p.public_id (reverse (ranking w lb)) ≡ some j
      → j + 1 < limit
      → ((t : ℤ) → get_expire_at t lb ≡ ok no_expiration)
      → after_scores (service g clock) label lb (p ∷ []) [] w
        ≡ (ok (record p { rank = pos (j + 1); score = to_int x } ∷ []), w)
  unfolding after_scores store_ttl eq
  after_scores-served label lb p w x j s q h plain =
      rw (set_members_values-served lb p w x j s q h)
        (rw (persist_expiration-plain lb w plain) refl)

  -- After one member is placed it has its score and a rank that fits.
  pub placed :
      (lb m : Text) (score : ℤ) (w w' : W)
      → length (ranking w lb) + 1 < limit
      → ranking w' lb ≡ add_one (entry m score) (ranking w lb)
      → (j : ℕ) × (score_of m (ranking w' lb) ≡ some (of_int score))
        × (position m (reverse (ranking w' lb)) ≡ some j)
        × (j + 1 < limit)
  placed lb m score w w' few here =
      let z = entry m score in
      let (j, q) = position-add_one z (ranking w lb) in
      (
        j,
        rw here (score_of-add_one z (ranking w lb)),
        rw here q,
        omega (
          arith,
          position-lt-length m (reverse (add_one z (ranking w lb))) j q,
          length-in_order down (add_one z (ranking w lb)),
          length-add_one z (ranking w lb),
        ),
      )

  -- After one member is written it is placed, and the rest is as ZADD says.
  pub persisted :
      (lb : Text) (p : Member) (w : W)
      → length (ranking w lb) + 1 < limit
      → (w' : W) × (j : ℕ) × (persist_members (service g clock) lb (p ∷ []) w ≡ (ok tt, w'))
        × (score_of p.public_id (ranking w' lb) ≡ some (of_int p.score))
        × (position p.public_id (reverse (ranking w' lb)) ≡ some j)
        × (j + 1 < limit)
        × ((k : Text)
            → ranking w' k ≡ (
                if eq lb k
                then add_one (entry p.public_id p.score) (ranking w lb)
                else ranking w k))
  persisted lb p w few =
      let (w', e, r) = persist_members-served lb p w in
      let (j, s, q, short) = placed lb p.public_id p.score w w' few (r lb ∙ rw (eq_refl lb) refl) in
      (w', j, e, s, q, short, r)
