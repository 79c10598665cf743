-- ===== src/Tests/Database.antt =====
-- The database, run.

use go_leaderboard.Base.{ℕ, ◌≡◌, refl, true, none, some, [], ◌∷◌}
use go_leaderboard.Base.Int.{pos}
use go_leaderboard.Base.Effect.{ok}
use go_leaderboard.Base.Bytes.{Text, eq}
use go_leaderboard.Go.Word.{◌+w◌}
use go_leaderboard.Go.Float.{finite, to_int}
use go_leaderboard.Go.Time.{zero_time, at}
use go_leaderboard.Redis.Sorted.{position, score_of, slice}
use go_leaderboard.Redis.Server.{memory, memory-Answers, memory-Removes, ranking, sets}
use go_leaderboard.Redis.Standalone as Standalone
use go_leaderboard.Redis.Cluster as Cluster
use go_leaderboard.Redis.Same.{cluster-client-standalone}
use go_leaderboard.Database.Defs.{DbMember}
use go_leaderboard.Database.Order.{desc, ttl_key}
use go_leaderboard.Database.Ranks.{
  get_total_members, get_rank, get_ordered_members, get_members, numbered,
}
use go_leaderboard.Database.Expiring.{get_expiration_leaderboards}
use go_leaderboard.Database.Served.{
  down, get_total_members-length, get_rank-position, get_ordered_members-slice,
}
use go_leaderboard.Database.Served.Members.{get_members-seen}
use go_leaderboard.Database.Served.Names.{get_expiration_leaderboards-ttl_key}
use go_leaderboard.Tests.Board.{board, ann, bob, cid, dan, store}

abbrev stored : Text → ℕ → ℕ → DbMember
stored m n i = record { member = m; score = finite (pos n) 0; rank = pos i; ttl = zero_time }

same_clients : Cluster.client memory ≡ Standalone.client memory
same_clients = cluster-client-standalone memory

three_members : get_total_members (Standalone.client memory) board store ≡ (ok (pos 3), store)
unfolding eq
three_members = get_total_members-length memory ranking memory-Answers board store

bob_is_second : get_rank (Standalone.client memory) board bob desc store ≡ (ok (pos 1), store)
unfolding eq position
bob_is_second = get_rank-position memory ranking memory-Answers board bob down store

first_two :
    get_ordered_members (Standalone.client memory) board (pos 0) (pos 1) desc store
    ≡ (ok (stored cid 30 0 ∷ stored bob 20 1 ∷ []), store)
unfolding eq slice numbered ◌+w◌
first_two = get_ordered_members-slice memory ranking memory-Answers board (pos 0) (pos 1) down store

ann_and_nobody :
    get_members (Standalone.client memory) board desc true (ann ∷ dan ∷ []) store
    ≡ (ok (some (record (stored ann 10 2) { ttl = at (pos 900) 0 }) ∷ none ∷ []), store)
unfolding eq position score_of to_int ttl_key
ann_and_nobody =
    get_members-seen memory ranking memory-Answers board down true store (ann ∷ dan ∷ [])

leaderboards_listed :
    get_expiration_leaderboards (Standalone.client memory) store ≡ (ok (board ∷ []), store)
unfolding eq ttl_key
leaderboards_listed =
    get_expiration_leaderboards-ttl_key memory ranking sets memory-Removes store (board ∷ []) refl
