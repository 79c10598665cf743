-- ===== src/Redis/Increments.antt =====
-- What is assumed of go-redis and the server of ZINCRBY: whole scores add up exactly as long as
-- they have at most 53 bits.
use go_leaderboard.Base.{◌<◌, ◌≡◌, if◌then◌else◌, Option, none, some, List}
use go_leaderboard.Base.Int.{ℤ, pos, ◌+ℤ◌}
use go_leaderboard.Base.Effect.{ok}
use go_leaderboard.Base.Bytes.{Text, eq}
use go_leaderboard.Go.Float.{Float64, of_int, magnitude}
use go_leaderboard.Redis.Defs.{GoRedis, Z}
use go_leaderboard.Redis.Sorted.{score_of, add_one}

abbrev pub whole : Text → ℤ → Z
whole m s = record { member = m; score = of_int s }

-- The score of a member as a whole number, 0 for none.
abbrev pub IsScore : Option Float64 → ℤ → Type 0
IsScore none s = s ≡ pos 0
IsScore (some x) s = x ≡ of_int s

pub record Increments {W : Type 0} (g : GoRedis W) (ranking : W → Text → List Z) : Type 0 where
  pub zincrby_lem :
      (k m : Text) (s i : ℤ) (w : W)
      → IsScore (score_of m (ranking w k)) s
      → magnitude s < 9007199254740992
      → magnitude i < 9007199254740992
      → magnitude (s +ℤ i) < 9007199254740992
      → (x : Float64) × (w' : W) × (g.zincrby k (of_int i) m w ≡ (ok x, w'))
        × ((j : Text)
            → ranking w' j
              ≡ (if eq k j then add_one (whole m (s +ℤ i)) (ranking w k) else ranking w j))
