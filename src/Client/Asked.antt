-- ===== src/Client/Asked.antt =====
-- GetMembers of the client and of the API together, where the text of the ids comes to the handler
-- as the client wrote it; neither the escaping of a URL nor the reading of its query is modelled.
use go_leaderboard.Base.{◌≡◌, refl, subst, Bool, false, ◌≢◌, List, [], ◌++◌, All}
use go_leaderboard.Base.Int.{ℤ}
use go_leaderboard.Base.Effect.{ok}
use go_leaderboard.Base.Bytes.{Text, codes, eq}
use go_leaderboard.Go.Time.{Time}
use go_leaderboard.Redis.Defs.{GoRedis, Z}
use go_leaderboard.Redis.Answers.{Answers}
use go_leaderboard.Redis.Sorted.{score_of}
use go_leaderboard.Database.Served.{Direction, order_name}
use go_leaderboard.Service.Pages.Served.{service}
use go_leaderboard.Api.Defs.{App}
use go_leaderboard.Api.Many.{GetMembersResponse, get_members}
use go_leaderboard.Api.Found.{absent_of, get_members-not_found}
use go_leaderboard.Client.Defs.{Podium}
use go_leaderboard.Client.Urls.{join, build_get_members_url}
use go_leaderboard.Client.Ids.{Lacks, split-join_iff}

module _ {W C : Type 0} (p : Podium C) (g : GoRedis W) (ranking : W → Text → List Z)
    (a : Answers g ranking) (clock : W → Time × W) (limit : ℤ) (add_error : W → W) where
  abbrev handlers : App W
  handlers = record {
    leaderboards = service g clock;
    max_returned_members = limit;
    add_error = add_error;
  }

  -- For a list of ids that is not empty, not all one empty id, and without commas, the URL that
  -- the client builds for GetMembers has a text of ids for which GetMembers of the API, over a
  -- server that answers, succeeds and reports as not found exactly those of the given ids that
  -- have no score, in the order given.
  pub get_members-joined :
      (lb : Text) (dir : Direction) (ttl : Bool) (ids : List Text) (w : W)
      → ids ≢ []
      → All (Lacks b',') ids
      → eq (join ids) [] ≡ false
      → (q : Text) × (build_get_members_url p lb ids
          ≡ p.base_url ++ (codes "/l/" ++ (lb ++ (codes "/members?ids=" ++ q))))
        × (r : GetMembersResponse) × (get_members handlers lb (order_name dir) ttl q w ≡ (ok r, w))
        × (r.not_found ≡ absent_of (λ m. score_of m (ranking w lb)) ids)
  unfolding build_get_members_url
  get_members-joined lb dir ttl ids w ne h e =
      let (r, answered, missing) =
        get_members-not_found g ranking a clock limit add_error lb dir ttl (join ids) w e in
      (
        join ids,
        refl,
        r,
        answered,
        subst (λ (l : List Text). r.not_found ≡ absent_of (λ m. score_of m (ranking w lb)) l)
            ((split-join_iff ids).1 (ne, h)) missing,
      )
