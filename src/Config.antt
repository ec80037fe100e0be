-- ===== src/Config.antt =====
-- Package viper as the program reads its configuration, a parameter.
use kloudstack.Base.{ℕ, Bool, List}
use kloudstack.Base.Text.{Text}

pub record Viper (W : Type 0) : Type 0 where
  pub get_string : Text → W → Text
  pub get_string_slice : Text → W → List Text
  pub get_bool : Text → W → Bool
  -- `GetInt32`, printed.
  pub get_int32 : Text → W → Text
  pub get_int : Text → W → ℕ
