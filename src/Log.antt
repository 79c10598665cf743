-- ===== src/Log.antt =====
-- log/log.go: the levels, and the callback that writes an entry. zap's Check is a parameter: it gives
-- an entry if the level is enabled.
use go_leaderboard.Base.{Option, none, some, List, [], ◌∷◌}
use go_leaderboard.Base.Bytes.{Text}

pub data Level : Type 0 where
  debug_level info_level warn_level error_level panic_level : Level

-- `write` is the Write of an entry with no fields.
pub record Logger (W Entry : Type 0) : Type 0 where
  pub check : Level → Text → Option Entry
  pub write : Entry → W → W

module _ {W Entry : Type 0} (logger : Logger W Entry) where
  unfoldable pub default_write : Entry → W → W
  default_write l = logger.write l

  -- `callback ...func(l CM)`: used if it is the only one.
  unfoldable pub chosen : List (Entry → W → W) → Entry → W → W
  unfolding default_write
  chosen (cb ∷ []) = cb
  chosen [] = default_write
  chosen (cb ∷ cb' ∷ cbs) = default_write

  unfoldable pub log : Level → Text → List (Entry → W → W) → W → W
  unfolding chosen
  log level message callback w = elim (logger.check level message) [
    | none ↦ w
    | some cm ↦ chosen callback cm w
  ]

  unfoldable pub d : Text → List (Entry → W → W) → W → W
  unfolding log
  d = log debug_level

  unfoldable pub i : Text → List (Entry → W → W) → W → W
  unfolding log
  i = log info_level

  unfoldable pub w : Text → List (Entry → W → W) → W → W
  unfolding log
  w = log warn_level

  unfoldable pub e : Text → List (Entry → W → W) → W → W
  unfolding log
  e = log error_level

  unfoldable pub p : Text → List (Entry → W → W) → W → W
  unfolding log
  p = log panic_level
