-- ===== src/Worker/Swept.antt =====
-- What one tick of the worker makes of the sorted sets: the leaderboards are cleared one after the
-- other, each by what the earlier ones left.
pub mod Due
pub mod Tick
use go_leaderboard.Base.{
  ℕ, ◌≡◌, ◌==◌, true, false, ◌||◌, if◌then◌else◌, List, [], ◌∷◌, length, take,
}
use go_leaderboard.Base.Bytes.{Text, eq}
use go_leaderboard.Go.Float.{Float64}
use go_leaderboard.Redis.Defs.{Z}
use go_leaderboard.Redis.Removes.{without_all, due}
use go_leaderboard.Database.Order.{ttl_key}
use go_leaderboard.Worker.{ExpirationResult}

abbrev pub Rankings : Type 0
Rankings = Text → List Z

module _ (limit : ℕ) (now : Float64) where
  -- The members that a leaderboard loses.
  abbrev pub leaving : Text → Rankings → List Text
  leaving lb r = take limit (due now (r (ttl_key lb)))

  unfoldable pub cleared : Text → Rankings → Rankings
  cleared lb r j = if eq lb j || eq (ttl_key lb) j then without_all (leaving lb r) (r j) else r j

  unfoldable pub swept : List Text → Rankings → Rankings
  unfolding cleared
  swept [] r = r
  swept (lb ∷ lbs) r = swept lbs (cleared lb r)

  unfoldable pub report : Text → Rankings → ExpirationResult
  report lb r =
      if length (r (ttl_key lb)) == 0
      then record { deleted_members = 0; deleted_set = true; set = lb }
      else record { deleted_members = length (leaving lb r); deleted_set = false; set = lb }

  unfoldable pub reports : List Text → Rankings → List ExpirationResult
  unfolding report cleared
  reports [] r = []
  reports (lb ∷ lbs) r = report lb r ∷ reports lbs (cleared lb r)
