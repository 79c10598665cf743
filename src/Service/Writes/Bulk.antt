-- ===== src/Service/Writes/Bulk.antt =====
-- SetMembersScore over a server that answers, for a name without an expiration.
use mathlib.Core.List.{reverse}
use go_leaderboard.Base.{
  ℕ, ◌+◌, ◌≤◌, ◌<◌, ◌≡◌, refl, ap, ◌∙◌, arith, Bool, true, false, if◌then◌else◌, Option, none, some,
  List, [], ◌∷◌, map, length, length-map, All, Bool-cases, inl, inr,
}
use go_leaderboard.Base.Int.{ℤ, pos}
use go_leaderboard.Base.Effect.{ok}
use go_leaderboard.Base.Bytes.{Text, codes, eq, eq_refl}
use go_leaderboard.Go.Float.{Float64, of_int, to_int}
use go_leaderboard.Go.Time.{Time}
use go_leaderboard.Redis.Defs.{GoRedis, Z}
use go_leaderboard.Redis.Answers.{Answers}
use go_leaderboard.Redis.Sorted.{position, score_of, add_one, add_all}
use go_leaderboard.Redis.Sorted.Listed.{Standing, standing, absent, present}
use go_leaderboard.Redis.Sorted.Added.{score_of-add_one_if}
use go_leaderboard.Redis.Standalone as Standalone
use go_leaderboard.Redis.Standalone.{to_z}
use go_leaderboard.Database.Scores.{set_members, with_score}
use go_leaderboard.Database.Served.{down}
use go_leaderboard.Database.Served.Members.{seen, get_members-seen}
use go_leaderboard.Expiration.Name.{get_expire_at, no_expiration}
use go_leaderboard.Service.Defs.{Member}
use go_leaderboard.Service.Members.{
  scored, persist_members, set_members_values, get_database_members, with_values,
  set_members_previous_rank, with_previous_ranks,
}
use go_leaderboard.Service.Pages.Served.{service, length-in_order}
use go_leaderboard.Service.Around.Window.{limit, add_small}
use go_leaderboard.Service.Around.Served.{position-lt-length}
use go_leaderboard.Service.Writes.{
  store_ttl, previous_ranks, after_scores, write_scores, set_members_score,
}
use go_leaderboard.Service.Writes.Placed.{
  entry, rank_or_minus, length-add_one, seen-rank, persist_expiration-plain,
}

-- What the sorted set says of a member: the rank from 1, or -1, and the whole score.
abbrev pub rank_now : List Z → Text → ℤ
rank_now zs m = rank_or_minus (position m (reverse zs))

abbrev pub whole_score : Option Float64 → ℤ
whole_score none = pos 0
whole_score (some x) = to_int x

abbrev pub ranked_before : List Z → Member → Member
ranked_before zs m = record m { previous_rank = rank_now zs m.public_id }

abbrev pub ranked_after : List Z → Member → Member
ranked_after zs m = record m {
  rank = rank_now zs m.public_id;
  score = whole_score (score_of m.public_id zs);
}

abbrev pub entry_of : Member → Z
entry_of m = entry m.public_id m.score

-- The members as ZADD gets them.
entries_lem : (ms : List Member) → map to_z (map with_score (map scored ms)) ≡ map entry_of ms
unfolding scored with_score
entries_lem [] = refl
entries_lem (m ∷ ms) = ap (λ (zs : List Z). entry_of m ∷ zs) (entries_lem ms)

entries-ranked_before :
    (zs : List Z) (ms : List Member) → map entry_of (map (ranked_before zs) ms) ≡ map entry_of ms
entries-ranked_before zs [] = refl
entries-ranked_before zs (m ∷ ms) =
    ap (λ (es : List Z). entry_of m ∷ es) (entries-ranked_before zs ms)

pub length-add_all : (es zs : List Z) → length (add_all es zs) ≤ length es + length zs
unfolding add_all
length-add_all [] zs = omega arith
length-add_all (e ∷ es) zs = omega (arith, length-add_all es (add_one e zs), length-add_one e zs)

-- A member has a score.
abbrev pub HasScore : List Z → Text → Type 0
HasScore zs m = (x : Float64) × (score_of m zs ≡ some x)

add_one-HasScore : (z : Z) (zs : List Z) (m : Text) → HasScore zs m → HasScore (add_one z zs) m
add_one-HasScore z zs m h = elim (Bool-cases (eq z.member m)) [
  | inl e ↦ (z.score, score_of-add_one_if m z zs ∙ rw e refl)
  | inr e ↦ (h.0, score_of-add_one_if m z zs ∙ rw e h.1)
]

add_all-HasScore : (es zs : List Z) (m : Text) → HasScore zs m → HasScore (add_all es zs) m
unfolding add_all
add_all-HasScore [] zs m h = h
add_all-HasScore (e ∷ es) zs m h = add_all-HasScore es (add_one e zs) m (add_one-HasScore e zs m h)

added-HasScore :
    (ms : List Member) (zs : List Z)
    → All (λ m. HasScore (add_all (map entry_of ms) zs) m.public_id) ms
unfolding add_all
added-HasScore [] zs = tt
added-HasScore (m ∷ ms) zs = (
  add_all-HasScore (map entry_of ms) (add_one (entry_of m) zs) m.public_id (
    of_int m.score,
    score_of-add_one_if m.public_id (entry_of m) zs ∙ rw (eq_refl m.public_id) refl,
  ),
  added-HasScore ms (add_one (entry_of m) zs),
)

module _ {W : Type 0} (g : GoRedis W) (ranking : W → Text → List Z) (a : Answers g ranking)
    (clock : W → Time × W) (still : (w : W) → (clock w).1 ≡ w) where
  with_previous_ranks-seen :
      (lb : Text) (w : W) (ms : List Member)
      → length (ranking w lb) < limit
      → with_previous_ranks ms (map (seen g ranking a lb down true w) (map (λ m. m.public_id) ms))
        ≡ some (map (ranked_before (ranking w lb)) ms)
  unfolding with_previous_ranks
  with_previous_ranks-seen lb w [] few = refl
  with_previous_ranks-seen lb w (m ∷ ms) few =
      rw (with_previous_ranks-seen lb w ms few)
        (rw (seen-rank g ranking a clock still lb m.public_id w few) refl)

  with_values-seen :
      (lb : Text) (w : W) (ms : List Member)
      → length (ranking w lb) < limit
      → All (λ m. HasScore (ranking w lb) m.public_id) ms
      → with_values ms (map (seen g ranking a lb down true w) (map (λ m. m.public_id) ms))
        ≡ some (map (ranked_after (ranking w lb)) ms)
  unfolding with_values
  with_values-seen lb w [] few h = refl
  with_values-seen lb w (m ∷ ms) few h =
      from (standing m.public_id (ranking w lb)) (with_values-seen lb w ms few h.1)
    where
      from :
          Standing m.public_id (ranking w lb)
          → with_values ms (map (seen g ranking a lb down true w) (map (λ m. m.public_id) ms))
            ≡ some (map (ranked_after (ranking w lb)) ms)
          → with_values
              (m ∷ ms)
              (map (seen g ranking a lb down true w) (map (λ m. m.public_id) (m ∷ ms)))
            ≡ some (map (ranked_after (ranking w lb)) (m ∷ ms))
      from (absent s p q) rest = absurd (cc (h.0.1, s))
      from (present x i j s p q) rest =
          rw (s, q) (rw rest (rw (add_small j 1 (below_limit j q) (omega arith)) refl))
        where
          below_limit : (j : ℕ) → position m.public_id (reverse (ranking w lb)) ≡ some j → j < limit
          below_limit j q = omega (
            arith,
            position-lt-length m.public_id (reverse (ranking w lb)) j q,
            length-in_order down (ranking w lb),
          )

  persist_members-many :
      (lb : Text) (ms : List Member) (w : W)
      → 0 < length ms
      → (w' : W) × (persist_members (service g clock) lb ms w ≡ (ok tt, w'))
        × ((k : Text)
            → ranking w' k
              ≡ (if eq lb k then add_all (map entry_of ms) (ranking w lb) else ranking w k))
  unfolding persist_members set_members Standalone.zadd
  persist_members-many lb ms w filled =
      let (n, w', e, r) =
        a.zadd_lem lb (map entry_of ms) w (omega (arith, length-map entry_of ms)) in
      (w', rw (entries_lem ms) (rw e refl), r)

  -- The members with the ranks from before the call, if they are asked for.
  abbrev pub prepared : Text → List Member → Bool → W → List Member
  prepared lb ms prev w = if prev then map (ranked_before (ranking w lb)) ms else ms

  previous_ranks-many :
      (label lb : Text) (ms : List Member) (prev : Bool) (w : W)
      → length (ranking w lb) < limit
      → previous_ranks (service g clock) label lb ms prev w ≡ (ok (prepared lb ms prev w), w)
  unfolding previous_ranks set_members_previous_rank get_database_members
  previous_ranks-many label lb ms false w few = refl
  previous_ranks-many label lb ms true w few =
      rw (get_members-seen g ranking a lb down true w (map (λ m. m.public_id) ms))
        (rw (with_previous_ranks-seen lb w ms few) refl)

  after_scores-many :
      (label lb : Text) (ms : List Member) (w : W)
      → length (ranking w lb) < limit
      → All (λ m. HasScore (ranking w lb) m.public_id) ms
      → ((t : ℤ) → get_expire_at t lb ≡ ok no_expiration)
      → after_scores (service g clock) label lb ms [] w
        ≡ (ok (map (ranked_after (ranking w lb)) ms), w)
  unfolding after_scores set_members_values get_database_members store_ttl eq
  after_scores-many label lb ms w few h plain =
      rw (get_members-seen g ranking a lb down true w (map (λ m. m.public_id) ms)) (
        rw (with_values-seen lb w ms few h)
          (rw (persist_expiration-plain g ranking a clock still lb w plain) refl))

  -- Every sorted set after the scores of the members are written, one after the other.
  abbrev pub ScoredAll : Text → List Member → W → W → Type 0
  ScoredAll lb ms w w' =
      (k : Text)
      → ranking w' k ≡ (if eq lb k then add_all (map entry_of ms) (ranking w lb) else ranking w k)

  prepared-entries :
      (lb : Text) (ms : List Member) (prev : Bool) (w : W)
      → map entry_of (prepared lb ms prev w) ≡ map entry_of ms
  prepared-entries lb ms true w = entries-ranked_before (ranking w lb) ms
  prepared-entries lb ms false w = refl

  -- Over a server that answers and a clock that leaves it as it is, for a name that never expires
  -- and no time to live, with fewer than 2^62 members after all of the list are added,
  -- SetMembersScore succeeds: the sorted set of the leaderboard is the old one with the members
  -- placed by their scores, one after the other, and no other sorted set changes; the answer is
  -- the list in its order, each with its rank and whole score in the new sorted set, and, if asked
  -- for, the rank from before the call, -1 for a new member.
  length-prepared :
      (lb : Text) (ms : List Member) (prev : Bool) (w : W)
      → length (prepared lb ms prev w) ≡ length ms
  length-prepared lb ms true w = length-map (ranked_before (ranking w lb)) ms
  length-prepared lb ms false w = refl

  -- Over a server that answers and a clock that leaves it as it is, for a name that never expires,
  -- no time to live and a list of members that is not empty, with fewer than 2^62 members after
  -- all of them are added, SetMembersScore succeeds: the sorted set of the leaderboard is the old
  -- one with the members placed by their scores, one after the other, and no other sorted set
  -- changes; the answer is the list in its order, each with its rank and whole score in the new
  -- sorted set, and, if asked for, the rank from before the call, -1 for a new member.
  pub set_members_score-served :
      (lb : Text) (ms : List Member) (prev : Bool) (w : W)
      → 0 < length ms
      → length (ranking w lb) + length ms < limit
      → ((t : ℤ) → get_expire_at t lb ≡ ok no_expiration)
      → (w' : W) × (set_members_score (service g clock) lb ms prev [] w
          ≡ (ok (map (ranked_after (ranking w' lb)) (prepared lb ms prev w)), w'))
        × All (λ m. HasScore (ranking w' lb) m.public_id) (prepared lb ms prev w)
        × ScoredAll lb ms w w'
  unfolding set_members_score write_scores
  set_members_score-served lb ms prev w filled few plain =
      let ps = prepared lb ms prev w in
      let (w', e, r) = persist_members-many lb ps w (rw (length-prepared lb ms prev w) filled) in
      let here : ranking w' lb ≡ add_all (map entry_of ps) (ranking w lb) =
        r lb ∙ rw (eq_refl lb) refl in
      let listed : All (λ m. HasScore (ranking w' lb) m.public_id) ps =
        rw here (added-HasScore ps (ranking w lb)) in
      (
        w',
        rw (previous_ranks-many (codes "set members score") lb ms prev w (omega arith)) (
            rw e (
              after_scores-many (codes "set members score") lb ps w'
                (rw
                  (here
                    ∙ ap (λ (es : List Z). add_all es (ranking w lb))
                        (prepared-entries lb ms prev w))
                  (omega (
                    arith,
                    length-add_all (map entry_of ms) (ranking w lb),
                    length-map entry_of ms,
                  )))
                listed plain)),
        listed,
        λ k. rw (← prepared-entries lb ms prev w) (r k),
      )
