-- ===== src/Tests/Again.antt =====
-- The handlers, one after the other.
use go_leaderboard.Base.{◌≡◌, refl, arith, true, false, []}
use go_leaderboard.Base.Int.{pos}
use go_leaderboard.Base.Effect.{ok, err}
use go_leaderboard.Base.Bytes.{Text, codes, eq}
use go_leaderboard.Go.Float.{finite, of_int, to_int}
use go_leaderboard.Go.Strconv.{split}
use go_leaderboard.Redis.Removes.{has}
use go_leaderboard.Redis.Server.{
  Store, memory, memory-Answers, memory-Removes, ranking, sets, clock,
}
use go_leaderboard.Expiration.Name.{get_expire_at}
use go_leaderboard.Expiration.Pattern.{find, from_to, yearly, periodic}
use go_leaderboard.Service.Writes.Served.{Scored}
use go_leaderboard.Api.Defs.{MemberResponse, status, not_found}
use go_leaderboard.Api.Upsert.{upsert_score}
use go_leaderboard.Api.Single.{get_member}
use go_leaderboard.Api.Remove.{remove_members}
use go_leaderboard.Api.Again.{
  app, plain_request, upsert_score-get_member, remove_members-get_member,
}
use go_leaderboard.Tests.Board.{board, dan, store}

upsert_score-get_member_example :
    (w : Store) × (r : MemberResponse) × (upsert_score
        (app memory clock (pos 100) (λ w. w))
        (plain_request board dan (finite (pos 25) 0))
        store
      ≡ (ok r, w))
    × (get_member (app memory clock (pos 100) (λ w. w)) board dan [] false w ≡ (ok r, w))
    × (r.score ≡ finite (pos 25) 0)
    × Scored memory ranking memory-Answers clock (λ w. refl) board dan (pos 25) store w
unfolding eq get_expire_at find from_to yearly periodic to_int of_int
upsert_score-get_member_example =
    upsert_score-get_member memory ranking memory-Answers clock (λ w. refl) (pos 100) (λ w. w) board
      dan (finite (pos 25) 0) store (omega arith) (omega arith) (λ t. refl)

remove_members-get_member_example :
    (w : Store) × (remove_members
        (app memory clock (pos 100) (λ w. w))
        board
        (codes "ann,dan")
        store
      ≡ (ok tt, w))
    × ((m : Text)
        → has m (split (codes "ann,dan")) ≡ true
        → get_member (app memory clock (pos 100) (λ w. w)) board m [] false w
          ≡ (err (status not_found (codes "Member not found.")), w))
unfolding eq
remove_members-get_member_example =
    remove_members-get_member memory ranking sets memory-Answers memory-Removes clock (pos 100)
      (λ w. w) board (codes "ann,dan") store refl
