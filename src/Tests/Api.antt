-- ===== src/Tests/Api.antt =====
-- The handlers, run.
use go_leaderboard.Base.{◌≡◌, refl, true, false, ◌↔◌, [], ◌∷◌}
use go_leaderboard.Base.Int.{pos}
use go_leaderboard.Base.Effect.{ok}
use go_leaderboard.Base.Bytes.{codes, eq}
use go_leaderboard.Go.Strconv.{split}
use go_leaderboard.Redis.Sorted.{score_of}
use go_leaderboard.Redis.Server.{Store, memory, memory-Answers, ranking, clock}
use go_leaderboard.Database.Order.{desc}
use go_leaderboard.Database.Served.{down}
use go_leaderboard.Service.Pages.Served.{service}
use go_leaderboard.Api.Defs.{App}
use go_leaderboard.Api.Many.{GetMembersResponse, get_members}
use go_leaderboard.Api.Found.{absent_of, get_members-not_found}
use go_leaderboard.Service.Errors.{member_not_found}
use go_leaderboard.Api.Defs.{is_not_found}
use go_leaderboard.Api.NotFound.{IsMissing, is_not_found_iff}
use go_leaderboard.Tests.Board.{board, ann, dan, store}

missing_is_not_found :
    (is_not_found (member_not_found board ann) ≡ true) ↔ IsMissing (member_not_found board ann)
missing_is_not_found = is_not_found_iff (member_not_found board ann)

abbrev handlers : App Store
handlers = record {
  leaderboards = service memory clock;
  max_returned_members = pos 100;
  add_error = λ w. w;
}

get_members-not_found_example :
    (r : GetMembersResponse) × (get_members handlers board desc false
        (codes "bob,dan,ann,eve")
        store
      ≡ (ok r, store))
    × (r.not_found ≡ dan ∷ codes "eve" ∷ [])
unfolding eq absent_of split score_of
get_members-not_found_example =
    get_members-not_found memory ranking memory-Answers clock (pos 100) (λ w. w) board down false
      (codes "bob,dan,ann,eve") store refl
