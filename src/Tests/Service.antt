-- ===== src/Tests/Service.antt =====
-- Reads of the service, run.
use mathlib.Core.List.{Permᴰ}
use go_leaderboard.Base.{ℕ, ◌+◌, ◌-◌, ◌≤◌, ◌<◌, ◌≡◌, refl, arith, true, false, List, [], ◌∷◌}
use go_leaderboard.Base.Int.{pos, negsuc, ◌≤ℤ◌}
use go_leaderboard.Base.Effect.{ok, err}
use go_leaderboard.Base.Bytes.{Text, eq}
use go_leaderboard.Go.Word.{◌+w◌}
use go_leaderboard.Go.Float.{to_int, of_int, floor, mul, div}
use go_leaderboard.Redis.Server.{memory, memory-Answers, memory-Removes, ranking, sets, clock}
use go_leaderboard.Redis.Sorted.{below, position, score_of}
use go_leaderboard.Database.Order.{asc, desc, ttl_key}
use go_leaderboard.Database.Served.{up, down}
use go_leaderboard.Service.Errors.{member_not_found}
use go_leaderboard.Service.Defs.{Member}
use go_leaderboard.Service.Pages.{indexes_around, pages, members_to_return, get_leaders}
use go_leaderboard.Service.Pages.Ceiling.{pages_exact}
use go_leaderboard.Service.Pages.{get_top_percentage}
use go_leaderboard.Service.Pages.Top.{get_top_percentage-quarters, get_top_percentage-take}
use go_leaderboard.Service.Pages.Whole.{first_pages, first_pages-whole}
use go_leaderboard.Service.Pages.Percentage.{members_to_return-bounds}
use go_leaderboard.Service.Pages.Served.{service, get_leaders-page}
use go_leaderboard.Service.Around.{get_around_me, get_around_score}
use go_leaderboard.Redis.Removes.{due}
use go_leaderboard.Service.Around.Score.{get_around_score-closest}
use go_leaderboard.Service.Around.Window.{
  at, window-holds-rank, page_of_one_misses, negative_page_from_end,
}
use go_leaderboard.Service.Around.Served.{get_around_me-found, get_around_me-missing}
use go_leaderboard.Service.Reads.{get_member, get_members, get_rank, member_of}
use go_leaderboard.Service.Reads.Sorted.{ByRank}
use go_leaderboard.Service.Reads.Served.{get_member-seen, get_members-sorted, get_rank-from_one}
use go_leaderboard.Tests.Board.{board, ann, bob, cid, dan, store}

abbrev member : Text → ℕ → ℕ → Member
member m score rank = record {
  public_id = m;
  score = pos score;
  rank = pos rank;
  previous_rank = pos 0;
  expire_at = pos 0;
}

get_leaders-page_example :
    get_leaders (service memory clock) board (pos 2) (pos 1) desc store
    ≡ (ok (member cid 30 1 ∷ member bob 20 2 ∷ []), store)
unfolding eq to_int
get_leaders-page_example =
    get_leaders-page memory ranking memory-Answers clock board down store 2 0 (omega arith)
      (omega arith) (omega arith) (omega arith) (omega arith)

get_around_me-found_example :
    get_around_me (service memory clock) board (pos 2) bob desc false store
    ≡ (ok (member bob 20 2 ∷ member ann 10 3 ∷ []), store)
unfolding eq to_int position
get_around_me-found_example =
    get_around_me-found memory ranking memory-Answers clock board bob down false store 1 2 refl
      (omega arith) (omega arith) (omega arith)

get_around_me-missing_example :
    (get_around_me (service memory clock) board (pos 2) dan desc false store
      ≡ (err (member_not_found board dan), store))
    × (get_around_me (service memory clock) board (pos 2) dan desc true store
        ≡ (ok (member bob 20 2 ∷ member ann 10 3 ∷ []), store))
unfolding eq to_int position
get_around_me-missing_example =
    get_around_me-missing memory ranking memory-Answers clock board dan down store 2 refl
      (omega arith) (omega arith) (omega arith) (omega arith)

member_seen :
    get_member (service memory clock) board ann asc true store
    ≡ (ok (record (member ann 10 1) { expire_at = pos 900 }), store)
unfolding eq to_int position score_of member_of ttl_key ◌+w◌
member_seen = get_member-seen memory ranking memory-Answers clock board ann up true store

get_members-sorted_example :
    (rs : List Member) × (get_members
        (service memory clock)
        board
        (bob ∷ dan ∷ cid ∷ [])
        desc
        false
        store
      ≡ (ok rs, store))
    × ByRank rs
    × Permᴰ rs (member bob 20 2 ∷ member cid 30 1 ∷ [])
unfolding eq to_int position score_of
get_members-sorted_example =
    get_members-sorted memory ranking memory-Answers clock board (bob ∷ dan ∷ cid ∷ []) down false
      store (omega arith)

rank_of_bob : get_rank (service memory clock) board bob desc store ≡ (ok (pos 2), store)
unfolding eq position
rank_of_bob =
    get_rank-from_one memory ranking memory-Answers clock board bob down store (omega arith)

pages_of_ten : pages (pos 10) (pos 3) ≡ pos 4
pages_of_ten = pages_exact 10 3 (omega arith) (omega arith) (omega arith)

share_of_a_hundred :
    (pos 1 ≤ℤ members_to_return (pos 100) (pos 29) (pos 50))
    × (members_to_return (pos 100) (pos 29) (pos 50) ≤ℤ pos 50)
share_of_a_hundred = members_to_return-bounds (pos 100) (pos 29) (pos 50) (omega arith)

window-holds-rank_example :
    (indexes_around (pos 10) (pos 4) (pos 3) ≡ at 3 5)
    × (3 ≤ 4 - 1)
    × (4 - 1 ≤ 5)
    × (5 < 10)
    × (5 + 1 - 3 ≡ 3)
window-holds-rank_example =
    window-holds-rank 10 4 3 (omega arith) (omega arith) (omega arith) (omega arith) (omega arith)
      (omega arith)

page_of_one_misses_example : indexes_around (pos 10) (pos 4) (pos 1) ≡ at 4 4
page_of_one_misses_example = page_of_one_misses 10 4 (omega arith) (omega arith) (omega arith)

negative_page_from_end_example :
    indexes_around (pos 10) (pos 1) (negsuc 2) ≡ record { start = pos 2; stop = negsuc 1 }
negative_page_from_end_example =
    negative_page_from_end 10 1 3 (omega arith) (omega arith) (omega arith)

first_pages-whole_example :
    first_pages (service memory clock) board (pos 2) desc 2 store
    ≡ (ok (member cid 30 1 ∷ member bob 20 2 ∷ member ann 10 3 ∷ []), store)
unfolding eq to_int
first_pages-whole_example =
    first_pages-whole memory ranking memory-Answers clock board down store 2 2 (omega arith)
      (omega arith) (omega arith) (omega arith) (omega arith)

top_67_percent :
    get_top_percentage (service memory clock) board (pos 20) (pos 67) (pos 10) desc store
    ≡ (ok (member cid 30 1 ∷ member bob 20 2 ∷ []), store)
unfolding eq to_int members_to_return floor mul get_top_percentage of_int div
top_67_percent =
    get_top_percentage-take memory ranking memory-Answers clock board down store (pos 20) 67 10
      (omega arith) (omega arith) (omega arith) (omega arith) (omega arith)

get_top_percentage-quarters_example :
    get_top_percentage (service memory clock) board (pos 20) (pos 75) (pos 10) desc store
    ≡ (ok (member cid 30 1 ∷ member bob 20 2 ∷ []), store)
unfolding eq to_int
get_top_percentage-quarters_example =
    get_top_percentage-quarters memory ranking memory-Answers clock board down store (pos 20) 3 10
      (omega arith) (omega arith) (omega arith) (omega arith) (omega arith)

-- A score below all others, lowest score first: the last two members are the answer.
get_around_score-closest_example :
    get_around_score (service memory clock) board (pos 2) (pos 5) asc store
    ≡ (ok (member bob 20 2 ∷ member cid 30 3 ∷ []), store)
unfolding eq to_int position due below of_int
get_around_score-closest_example =
    get_around_score-closest memory ranking sets memory-Answers memory-Removes clock board up
      (pos 5) store 2 (omega arith, omega arith) (omega arith) (omega arith) (omega arith)
      (omega arith)
