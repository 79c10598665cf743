-- ===== src/Tests/Worker.antt =====
-- The worker, run.
use go_leaderboard.Base.{◌≡◌, refl, arith, true, false, [], ◌∷◌}
use go_leaderboard.Base.Int.{pos}
use go_leaderboard.Base.Effect.{ok}
use go_leaderboard.Base.Bytes.{eq, trim_suffix}
use go_leaderboard.Go.Float.{of_int}
use go_leaderboard.Redis.Sorted.{below}
use go_leaderboard.Redis.Standalone as Standalone
use go_leaderboard.Database.Expiring.{get_expiration_leaderboards}
use go_leaderboard.Go.Time.{Time, at, unix}
use go_leaderboard.Redis.Server.{Store, memory, memory-Removes, ranking, sets, clock}
use go_leaderboard.Redis.Removes.{due}
use go_leaderboard.Database.Order.{ttl_key}
use go_leaderboard.Worker.{results, expire_members_from_leaderboard, expire_members}
use go_leaderboard.Worker.Events.{Tick, expire_members-Tick}
use go_leaderboard.Worker.Served.{
  worker, Cleared, Unlisted, expire_members_from_leaderboard-Cleared,
  expire_members_from_leaderboard-Unlisted,
}
use go_leaderboard.Worker.Swept.{report, reports}
use go_leaderboard.Worker.Swept.Tick.{expire_members-Swept}
use go_leaderboard.Worker.Swept.Due.{Swept}
use go_leaderboard.Tests.Board.{board, ann, dan, store}

ann_expires :
    (w : Store) × (expire_members_from_leaderboard (worker memory clock 10) board store
      ≡ (ok (record { deleted_members = 1; deleted_set = false; set = board }), w))
    × Cleared memory ranking sets memory-Removes clock (λ w. refl) board (ann ∷ []) store w
unfolding eq ttl_key due unix below of_int
ann_expires =
    expire_members_from_leaderboard-Cleared memory ranking sets memory-Removes clock (λ w. refl) 10
      board store (omega arith) (omega arith, omega arith) (omega arith)

nothing_to_expire :
    (w : Store) × (expire_members_from_leaderboard (worker memory clock 10) dan store
      ≡ (ok (record { deleted_members = 0; deleted_set = true; set = dan }), w))
    × Unlisted memory ranking sets memory-Removes clock (λ w. refl) dan store w
unfolding eq ttl_key
nothing_to_expire =
    expire_members_from_leaderboard-Unlisted memory ranking sets memory-Removes clock (λ w. refl) 10
      dan store refl

-- A clock that always shows the time of the store.
abbrev stopped : Store → Time × Store
stopped w = (at (pos 1000) 0, w)

expire_members-Swept_example :
    (w : Store) × (expire_members (worker memory stopped 10) store
      ≡ (results (record { deleted_members = 1; deleted_set = false; set = board } ∷ []) ∷ [], w))
    × Swept 10 (of_int (pos 1000)) (board ∷ []) (ranking store) (ranking w)
unfolding eq ttl_key due unix below of_int report reports
expire_members-Swept_example =
    expire_members-Swept memory ranking sets memory-Removes stopped (λ w. refl) (at (pos 1000) 0)
      (λ w. refl) (omega arith, omega arith) 10 (omega arith) (board ∷ []) store refl

expire_members-Tick_example :
    Tick
      (worker memory clock 10)
      (ok (board ∷ []), store)
      (expire_members (worker memory clock 10) store)
unfolding get_expiration_leaderboards Standalone.smembers memory eq trim_suffix
expire_members-Tick_example = expire_members-Tick (worker memory clock 10) store
