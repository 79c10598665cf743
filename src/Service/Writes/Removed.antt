-- ===== src/Service/Writes/Removed.antt =====
-- The removals over a server that answers.
use go_leaderboard.Base.{◌<◌, length, ◌≡◌, refl, ◌∙◌, true, false, if◌then◌else◌, none, List, []}
use go_leaderboard.Base.Effect.{ok}
use go_leaderboard.Base.Bytes.{Text, eq, eq_refl}
use go_leaderboard.Go.Time.{Time}
use go_leaderboard.Redis.Defs.{GoRedis, Z}
use go_leaderboard.Redis.Removes.{Removes, without_all, has}
use go_leaderboard.Redis.Sorted.{position, score_of}
use go_leaderboard.Redis.Sorted.Without.{without_all-gone, without_all-kept}
use go_leaderboard.Redis.Standalone as Standalone
use go_leaderboard.Database.Scores as Scores
use go_leaderboard.Service.Pages.Served.{service}
use go_leaderboard.Service.Writes.{remove_members, remove_leaderboard}

module _ {W : Type 0} (g : GoRedis W) (ranking : W → Text → List Z) (sets : W → Text → List Text)
    (a : Removes g ranking sets) (clock : W → Time × W) where
  -- ZREM and DEL, seen through the service.
  pub remove_members-served :
      (lb : Text) (ms : List Text) (w : W)
      → 0 < length ms
      → (w' : W) × (remove_members (service g clock) lb ms w ≡ (ok tt, w'))
        × ((j : Text)
            → ranking w' j ≡ (if eq lb j then without_all ms (ranking w lb) else ranking w j))
  unfolding remove_members Scores.remove_members Standalone.zrem
  remove_members-served lb ms w some_of =
      let (n, w', e, r) = a.zrem_lem lb ms w some_of in (w', rw e refl, r)

  pub remove_leaderboard-served :
      (lb : Text) (w : W)
      → (w' : W) × (remove_leaderboard (service g clock) lb w ≡ (ok tt, w'))
        × ((j : Text) → ranking w' j ≡ (if eq lb j then [] else ranking w j))
  unfolding remove_leaderboard Scores.remove_leaderboard Standalone.del
  remove_leaderboard-served lb w = let (n, w', e, r) = a.del_lem lb w in (w', rw e refl, r)

  -- The members are gone, the others keep their scores, and so do all in other leaderboards.
  abbrev pub Without : Text → List Text → W → W → Type 0
  Without lb ms w w' =
      ((m : Text) → has m ms ≡ true → position m (ranking w' lb) ≡ none)
      × ((m : Text) → has m ms ≡ false → score_of m (ranking w' lb) ≡ score_of m (ranking w lb))
      × ((j : Text) → eq lb j ≡ false → ranking w' j ≡ ranking w j)

  -- Over a server that answers, RemoveMembers succeeds; afterwards the members named have no rank
  -- on the leaderboard, every other member has the score that it had, and no other sorted set has
  -- changed.
  pub remove_members-Without :
      (lb : Text) (ms : List Text) (w : W)
      → 0 < length ms
      → (w' : W) × (remove_members (service g clock) lb ms w ≡ (ok tt, w')) × Without lb ms w w'
  remove_members-Without lb ms w some_of =
      let (w', e, r) = remove_members-served lb ms w some_of in
      let here : ranking w' lb ≡ without_all ms (ranking w lb) = r lb ∙ rw (eq_refl lb) refl in
      (
        w',
        e,
        (
          (λ m h. rw here (without_all-gone m ms (ranking w lb) h)),
          (λ m h. rw here (without_all-kept m ms (ranking w lb) h)),
          (λ j h. r j ∙ rw h refl),
        ),
      )

  -- Over a server that answers, RemoveLeaderboard succeeds; afterwards the leaderboard has no
  -- members, and no other sorted set has changed.
  pub remove_leaderboard-empty :
      (lb : Text) (w : W)
      → (w' : W) × (remove_leaderboard (service g clock) lb w ≡ (ok tt, w'))
        × (ranking w' lb ≡ [])
        × ((j : Text) → eq lb j ≡ false → ranking w' j ≡ ranking w j)
  remove_leaderboard-empty lb w =
      let (w', e, r) = remove_leaderboard-served lb w in
      (w', e, r lb ∙ rw (eq_refl lb) refl, λ j h. r j ∙ rw h refl)
