-- ===== src/Tests/Refines.antt =====
-- A run of commands on an empty server.
use go_leaderboard.Base.{◌≡◌, refl, arith, true, false, none, some, List, [], ◌∷◌}
use go_leaderboard.Base.Int.{pos, negsuc, ◌+ℤ◌}
use go_leaderboard.Base.Effect.{ok}
use go_leaderboard.Base.Bytes.{eq}
use go_leaderboard.Go.Time.{at}
use go_leaderboard.Redis.Sorted.{score_of}
use go_leaderboard.Redis.Removes.{has}
use go_leaderboard.Redis.Server.{
  Store, memory, memory-Answers, memory-Increments, memory-Removes, ranking, sets, clock,
}
use go_leaderboard.Expiration.Name.{get_expire_at}
use go_leaderboard.Expiration.Pattern.{find, from_to, yearly, periodic}
use go_leaderboard.Service.Pages.Served.{service}
use go_leaderboard.Board.{
  Command, set_score, set_scores, increment, remove, read, run, replay, replies,
}
use go_leaderboard.Service.Writes.{new_member}
use go_leaderboard.Board.Steps.{Represents}
use go_leaderboard.Board.Refines.{run-refines}
use go_leaderboard.Tests.Board.{board, ann, bob, dan}

abbrev empty : Store
empty = record { sorted = λ k. []; plain = λ k. []; expiry = λ k. none; time = at (pos 1000) 0 }

abbrev commands : List Command
commands =
    set_score board ann (pos 10) true
    ∷ increment board bob (negsuc 4)
    ∷ increment board ann (pos 5)
    ∷ read board ann
    ∷ remove board (ann ∷ dan ∷ [])
    ∷ read board ann
    ∷ set_scores board (new_member bob (pos 7) ∷ new_member ann (pos 8) ∷ []) false
    ∷ read board ann
    ∷ []

run-refines_example :
    (w' : Store) × (run (service memory clock) commands empty ≡ (
      ok (
          some (pos 10)
          ∷ some (negsuc 4)
          ∷ some (pos 15)
          ∷ some (pos 15)
          ∷ none
          ∷ none
          ∷ none
          ∷ some (pos 8)
          ∷ []),
      w',
    ))
    × Represents memory ranking sets memory-Answers memory-Increments memory-Removes clock
        (λ w. refl)
        w'
        (replay commands (λ l m. none))
unfolding replies eq has ◌+ℤ◌ score_of get_expire_at find from_to yearly periodic
run-refines_example =
    run-refines memory ranking sets memory-Answers memory-Increments memory-Removes clock
      (λ w. refl) commands empty (λ l m. none) (λ l m. refl) (λ l. omega arith)
      (
        (omega arith, λ t. refl),
        (
          (omega arith, omega arith, omega arith, λ t. refl),
          (
            (omega arith, omega arith, omega arith, λ t. refl),
            (omega arith, (omega arith, (tt, ((omega arith, λ t. refl), (omega arith, tt))))),
          ),
        ),
      )
