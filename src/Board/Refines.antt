-- ===== src/Board/Refines.antt =====
-- Any sequence of commands over a server that answers.
use go_leaderboard.Base.{◌≡◌, refl, List, [], ◌∷◌}
use go_leaderboard.Base.Effect.{ok}
use go_leaderboard.Base.Bytes.{Text}
use go_leaderboard.Go.Time.{Time}
use go_leaderboard.Redis.Defs.{GoRedis, Z}
use go_leaderboard.Redis.Answers.{Answers}
use go_leaderboard.Redis.Increments.{Increments}
use go_leaderboard.Redis.Removes.{Removes}
use go_leaderboard.Service.Pages.Served.{service}
use go_leaderboard.Board.{Board, Command, apply, replay, replies, costs, FitsAll, run}
use go_leaderboard.Board.Steps.{Represents, HasRoom, execute-Refined}

module _ {W : Type 0} (g : GoRedis W) (ranking : W → Text → List Z) (sets : W → Text → List Text)
    (a : Answers g ranking) (b : Increments g ranking) (d : Removes g ranking sets)
    (clock : W → Time × W) (still : (w : W) → (clock w).1 ≡ w) where
  abbrev Represented : W → Board → Type 0
  Represented = Represents g ranking sets a b d clock still

  -- Over a server that answers, adds whole scores exactly up to 53 bits and removes what it is
  -- told to, and a clock that leaves it as it is, with room below 2^62 for as many more members as
  -- the commands may add, any sequence of SetMemberScore, SetMembersScore, IncrementMemberScore,
  -- RemoveMembers, RemoveLeaderboard and GetMember without a time to live, on names that never
  -- expire where a score is written and with scores, increments and sums below 2^53 in magnitude,
  -- and with lists to write and to remove that are not empty, succeeds and refines the map from
  -- leaderboards and members to scores: the scores answered are those of the map, and afterwards
  -- the sorted sets hold exactly the scores of the map.
  pub run-refines :
      (cs : List Command) (w : W) (board : Board)
      → Represented w board
      → HasRoom g ranking sets a b d clock still (costs cs) w
      → FitsAll cs board
      → (w' : W) × (run (service g clock) cs w ≡ (ok (replies cs board), w'))
        × Represented w' (replay cs board)
  unfolding run replay replies
  run-refines [] w board h room fits = (w, refl, h)
  run-refines (c ∷ cs) w board h room fits =
      let one =
        execute-Refined g ranking sets a b d clock still c (costs cs) w board h room fits.0 in
      let (w', e, r) = run-refines cs one.world (apply c board) one.represents one.room fits.1 in
      (w', rw one.answered (rw e refl), r)
