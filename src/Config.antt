-- ===== src/Config.antt =====
-- config/config.go, and viper as a parameter: a configuration is a value of the type V.
use go_leaderboard.Base.{Bool, List}
use go_leaderboard.Base.Int.{ℤ}
use go_leaderboard.Base.Effect.{Outcome}
use go_leaderboard.Base.Bytes.{Text, codes}

pub data Setting : Type 0 where
  text : Text → Setting
  int : ℤ → Setting
  flag : Bool → Setting
  -- In nanoseconds.
  duration : ℤ → Setting

pub record Viper (V : Type 0) : Type 0 where
  pub new : V
  pub set_config_file : Text → V → V
  pub set_env_key_replacer : Text → Text → V → V
  pub set_env_prefix : Text → V → V
  pub add_config_path : Text → V → V
  pub automatic_env : V → V
  pub read_in_config : V → Outcome Text V
  pub set_default : Text → Setting → V → V
  pub get_string : V → Text → Text
  pub get_int : V → Text → ℤ
  pub get_bool : V → Text → Bool
  pub get_duration : V → Text → ℤ
  pub get_string_slice : V → Text → List Text

unfoldable pub get_default_config : {V : Type 0} → Viper V → Text → Outcome Text V
get_default_config viper config_file =
    let c = viper.set_config_file config_file viper.new in
    let c =
      viper.set_env_prefix (codes "podium")
        (viper.set_env_key_replacer (codes ".") (codes "_") c) in
    viper.read_in_config (viper.automatic_env (viper.add_config_path (codes "$HOME") c))
