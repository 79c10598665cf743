-- ===== src/Api/Again.antt =====
-- GetMember of the API after UpsertScore, IncrementScore and RemoveMembers, over a server that answers.
use mathlib.Core.List.{reverse}
use go_leaderboard.Base.{
  ℕ, ◌+◌, ◌<◌, ◌≡◌, refl, ◌∙◌, arith, true, false, none, some, List, [], ◌∷◌, length,
}
use go_leaderboard.Base.Int.{ℤ, pos}
use go_leaderboard.Base.Effect.{ok, err}
use go_leaderboard.Base.Bytes.{Text, codes, eq, eq_refl}
use go_leaderboard.Go.Float.{Float64, of_int, to_int, to_int-of_int, magnitude}
use go_leaderboard.Go.Strconv.{split}
use go_leaderboard.Go.Time.{Time}
use go_leaderboard.Redis.Defs.{GoRedis, Z}
use go_leaderboard.Redis.Answers.{Answers}
use go_leaderboard.Redis.Removes.{Removes, has}
use go_leaderboard.Redis.Sorted.{position, score_of, add_one}
use go_leaderboard.Redis.Sorted.Listed.{absent, present, standing, score_of-add_one}
use go_leaderboard.Database.Served.{down}
use go_leaderboard.Expiration.Name.{get_expire_at, no_expiration}
use go_leaderboard.Service.Errors.{member_not_found}
use go_leaderboard.Service.Pages.Served.{service, length-in_order}
use go_leaderboard.Service.Around.Window.{limit, add_small}
use go_leaderboard.Service.Around.Served.{position-lt-length}
use go_leaderboard.Service.Reads as Reads
use go_leaderboard.Service.Reads.{member_of}
use go_leaderboard.Service.Reads.Served.{get_member-seen}
use go_leaderboard.Service.Writes.Placed.{entry, written, length-add_one}
use go_leaderboard.Service.Writes.Served.{Scored, set_member_score-served}
use go_leaderboard.Service.Writes.Removed.{remove_members-Without}
use go_leaderboard.Api.Defs.{
  App, status, not_found, missing_is_not_found, get_order, get_score_ttl, report, MemberResponse,
  member_response,
}
use go_leaderboard.Api.NotFound.{is_not_found_iff}
use go_leaderboard.Api.Upsert.{UpsertScoreRequest, upsert_score}
use go_leaderboard.Api.Single.{get_member}
use go_leaderboard.Api.Remove.{remove_members, unless_missing}

-- A request to write a score, with neither the previous rank nor a time to live.
abbrev pub plain_request : Text → Text → Float64 → UpsertScoreRequest
plain_request lb m x = record {
  leaderboard_id = lb;
  member_public_id = m;
  prev_rank = false;
  score_ttl = pos 0;
  score = some x;
}

abbrev pub app : {W : Type 0} → GoRedis W → (W → Time × W) → ℤ → (W → W) → App W
app g clock max add_error = record {
  leaderboards = service g clock;
  max_returned_members = max;
  add_error = add_error;
}

module _ {W : Type 0} (g : GoRedis W) (ranking : W → Text → List Z) (a : Answers g ranking)
    (clock : W → Time × W) (still : (w : W) → (clock w).1 ≡ w) where
  get_member-written :
      (lb m : Text) (score : ℤ) (j : ℕ) (w : W)
      → magnitude score < 9007199254740992
      → length (ranking w lb) < limit
      → score_of m (ranking w lb) ≡ some (of_int score)
      → position m (reverse (ranking w lb)) ≡ some j
      → Reads.get_member (service g clock) lb m (codes "desc") false w
        ≡ (ok (written m score j (pos 0)), w)
  unfolding member_of
  get_member-written lb m score j w small few s p =
      get_member-seen g ranking a clock lb m down false w
      ∙ rw (s, p)
          (rw (to_int-of_int score small) (rw (add_small j 1 below_limit (omega arith)) refl))
    where
      below_limit : j < limit
      below_limit = omega (
        arith,
        position-lt-length m (reverse (ranking w lb)) j p,
        length-in_order down (ranking w lb),
      )

  -- Over a server that answers and a clock that leaves it as it is, for a name that never expires,
  -- a score whose whole part is below 2^53 in magnitude and fewer than 2^62 - 1 members,
  -- UpsertScore of the API without the previous rank and a time to live succeeds, and GetMember of
  -- the API without an order and a time to live then gives the same response and changes nothing;
  -- its score is the whole part, and the sorted set of the leaderboard is the old one with the
  -- member placed by it, and no other sorted set changes.
  pub upsert_score-get_member :
      (max : ℤ) (add_error : W → W) (lb m : Text) (x : Float64) (w : W)
      → magnitude (to_int x) < 9007199254740992
      → length (ranking w lb) + 1 < limit
      → ((t : ℤ) → get_expire_at t lb ≡ ok no_expiration)
      → (w' : W) × (r : MemberResponse) × (upsert_score
            (app g clock max add_error)
            (plain_request lb m x)
            w
          ≡ (ok r, w'))
        × (get_member (app g clock max add_error) lb m [] false w' ≡ (ok r, w'))
        × (r.score ≡ of_int (to_int x))
        × Scored g ranking a clock still lb m (to_int x) w w'
  unfolding upsert_score get_member report get_order get_score_ttl member_response eq
  upsert_score-get_member max add_error lb m x w small few plain =
      let (w', j, e, q, r) =
        set_member_score-served g ranking a clock still lb m (to_int x) false w small few plain in
      let here : ranking w' lb ≡ add_one (entry m (to_int x)) (ranking w lb) =
        r lb ∙ rw (eq_refl lb) refl in
      (
        w',
        member_response (written m (to_int x) j (pos 0)),
        rw e refl,
        rw
            (get_member-written lb m (to_int x) j w' small
              (rw here (omega (arith, length-add_one (entry m (to_int x)) (ranking w lb))))
              (rw here (score_of-add_one (entry m (to_int x)) (ranking w lb))) q)
            refl,
        refl,
        r,
      )

split-filled : (s : Text) → 0 < length (split s)
unfolding split
split-filled [] = omega arith
split-filled (c ∷ s) = ground (arith, split-filled s)

module _ {W : Type 0} (g : GoRedis W) (ranking : W → Text → List Z) (sets : W → Text → List Text)
    (a : Answers g ranking) (b : Removes g ranking sets) (clock : W → Time × W) (max : ℤ)
    (add_error : W → W) where
  missing :
      (lb m : Text) (w : W)
      → position m (ranking w lb) ≡ none
      → get_member (app g clock max add_error) lb m [] false w
        ≡ (err (status not_found (codes "Member not found.")), add_error w)
  unfolding get_member report get_order eq missing_is_not_found
  missing lb m w p =
      rw (get_member-seen g ranking a clock lb m down false w) (elim (standing m (ranking w lb)) [
        | absent s q r ↦ rw s (rw ((is_not_found_iff (member_not_found lb m)).1 tt) refl)
        | present x i j s q r ↦ absurd (cc (p, q))
      ])

  -- Over a server that answers, for a list of ids that is not empty, RemoveMembers of the API
  -- succeeds, and afterwards GetMember of the API, without an order and a time to live, for each
  -- of the ids between the commas is the error NotFound, counted once among the errors.
  pub remove_members-get_member :
      (lb ids : Text) (w : W)
      → eq ids [] ≡ false
      → (w' : W) × (remove_members (app g clock max add_error) lb ids w ≡ (ok tt, w'))
        × ((m : Text)
            → has m (split ids) ≡ true
            → get_member (app g clock max add_error) lb m [] false w'
              ≡ (err (status not_found (codes "Member not found.")), add_error w'))
  unfolding remove_members unless_missing
  remove_members-get_member lb ids w some_ids =
      let (w', e, (gone, kept, others)) =
        remove_members-Without g ranking sets b clock lb (split ids) w (split-filled ids) in
      (w', rw some_ids (rw e refl), λ m h. missing lb m w' (gone m h))
