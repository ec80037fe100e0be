-- ===== src/Commands/Root.antt =====
-- cmd/root.go and main.go: the root command, its hook and the configuration file.
use kloudstack.Base.{
  Bool-cases, inl, inr, arith, ◌≡◌, Bool, false, List, [], ◌∷◌, ◌++◌, any, if◌then◌else◌, All, refl,
}
use kloudstack.Base.Text.{Text, lit, text_eq}
use kloudstack.Base.Result.{Error, Result, ok, err, panic, Action}
use kloudstack.Base.Ending.{Ending, finished, exited, panicked}
use kloudstack.Commands.Flags.{text, Flag, Command, before_root, after_root}
use kloudstack.Commands.Run.{end_with}

-- What cmd/root.go calls of package viper, and of the system.
pub record Settings (W : Type 0) : Type 0 where
  pub set_config_file : Text → W → W
  pub add_config_path : Text → W → W
  pub set_config_type : Text → W → W
  pub set_config_name : Text → W → W
  pub automatic_env : W → W
  pub read_in_config : Action W (Unit {0})
  pub config_file_used : W → Text
  pub user_home_dir : W → Result Text
  -- `fmt.Println`, and `fmt.Fprintln` to the standard error.
  pub print_line : Text → W → W
  pub print_error : Text → W → W

-- A Boolean flag, whose error is dropped.
abbrev or_false : Result Bool → Bool
or_false (ok b) = b
or_false (err e) = false
or_false panic = false

module _ {W : Type 0} (os : Settings W) where
  -- `cobra.CheckErr`
  abbrev check_err : {A : Type 0} → Result A × W → (A → W → Ending × W) → Ending × W
  check_err (ok a, w) k = k a w
  check_err (err e, w) k = (exited 1, os.print_error (lit "Error: " ++ e.message) w)
  check_err (panic, w) k = (panicked, w)

  abbrev after_read : Result (Unit {0}) × W → (W → Ending × W) → Ending × W
  after_read (ok _, w) k = k (os.print_error (lit "Using config file: " ++ os.config_file_used w) w)
  after_read (err e, w) k = k w
  after_read (panic, w) k = (panicked, w)

  pub read_config : W → (W → Ending × W) → Ending × W
  read_config w k = after_read (os.read_in_config (os.automatic_env w)) k

  -- `initConfig`, with the value of the flag `config`
  unfoldable pub init_config : Text → W → (W → Ending × W) → Ending × W
  unfolding read_config
  init_config cfg_file w k =
      if text_eq cfg_file []
      then check_err (os.user_home_dir w, w)
          (λ home v.
            read_config
              (os.set_config_name (lit ".kloudstack")
                (os.set_config_type (lit "yaml") (os.add_config_path home v)))
              k)
      else read_config (os.set_config_file cfg_file w) k

  -- `rootCmd.PersistentPreRun`, for a command with these flags
  unfoldable pub persistent_pre_run :
      (List Flag → Text → W → Result Bool) → List Flag → (W → Ending × W) → W → Ending × W
  persistent_pre_run get_bool flags run w =
      if or_false (get_bool flags (lit "version") w)
      then (exited 0, os.print_line (lit "v0.0.0-alpha.0") w)
      else run w

-- `rootCmd.Run`: the help is printed, and its error dropped.
unfoldable pub run_root : {W : Type 0} → Action W (Unit {0}) → W → Ending × W
run_root help w = end_with finished (help w)

-- `Execute`, which is all of `main`.
unfoldable pub execute :
    {W : Type 0} → ((Result (Unit {0}) × W → Ending × W) → W → Ending × W) → W → Ending × W
execute root_execute w = root_execute (end_with (exited 1)) w

-- The root's persistent flags, of every command.
abbrev pub persistent_flags : List Flag
persistent_flags = record { name = lit "config"; shorthand = []; default = text [] } ∷ []

module _ {W : Type 0} (os : Settings W) (get_bool : List Flag → Text → W → Result Bool) where
  -- What is relied on of pflag: a flag that there is not is an error.
  abbrev pub RefusesUnknown : Type 0
  RefusesUnknown =
      (flags : List Flag) (name : Text) (w : W)
      → any (λ f. text_eq f.name name) flags ≡ false
      → (e : Error) × (get_bool flags name w ≡ err e)

  without_flag :
      (flags : List Flag) (run : W → Ending × W) (w : W)
      → RefusesUnknown
      → any (λ f. text_eq f.name (lit "version")) flags ≡ false
      → persistent_pre_run os get_bool flags run w ≡ run w
  unfolding persistent_pre_run
  without_flag flags run w refuses absent = rw (refuses flags (lit "version") w absent).1

  abbrev has_version : Command → Bool
  has_version c = any (λ f. text_eq f.name (lit "version")) (c.flags ++ persistent_flags)

  without_flags :
      (cs : List Command) (run : W → Ending × W) (w : W)
      → RefusesUnknown
      → any has_version cs ≡ false
      → All (λ c. persistent_pre_run os get_bool (c.flags ++ persistent_flags) run w ≡ run w) cs
  without_flags [] run w refuses absent = tt
  without_flags (c ∷ cs) run w refuses absent = elim (Bool-cases (has_version c)) [
    | inl has ↦ absurd (ground arith)
    | inr not_has ↦ (
      without_flag (c.flags ++ persistent_flags) run w refuses not_has,
      without_flags cs run w refuses (ground arith),
    )
  ]

  -- The hook leaves alone every command but the root: none has the flag `version`, which is not
  -- persistent.
  pub persistent_pre_run-others :
      RefusesUnknown
      → (run : W → Ending × W) (w : W)
      → All
          (λ c. persistent_pre_run os get_bool (c.flags ++ persistent_flags) run w ≡ run w)
          (before_root ++ after_root)
  unfolding text_eq
  persistent_pre_run-others refuses run w =
      without_flags (before_root ++ after_root) run w refuses refl
