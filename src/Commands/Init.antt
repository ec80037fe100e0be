-- ===== src/Commands/Init.antt =====
-- The `init` functions of cmd over packages cobra, pflag and viper, which are parameters: how flags are
-- added and keys are bound.
pub mod Laws
use kloudstack.Base.{
  ℕ, ◌<◌, ◌≡◌, refl, sym, ap, ◌∙◌, ◌≢◌, ◌⊎◌, inl, inr, Bool, true, false, Option, none, some, List,
  [], ◌∷◌, ◌++◌, length, All, arith, Bool-cases, if◌then◌else◌,
}
use kloudstack.Base.Text.{Text, lit, text_eq}
use kloudstack.Base.Result.{Result, ok, err, panic, Action, pure, ◌>>=◌, bind}
use kloudstack.Commands.Flags.{
  FlagValue, text, toggle, Flag, Command, cdn_controller_cmd, metric_exporter_cmd, before_root,
  after_root,
}

-- A flag by the name of its command and its own.
abbrev pub FlagRef : Type 0
FlagRef = Text × Text

pub record Cobra (W : Type 0) : Type 0 where
  -- `Flags().StringP` and the like, of a command; `PersistentFlags` of the root.
  pub add_flag : Text → Flag → Action W (Unit {0})
  pub add_persistent_flag : Flag → Action W (Unit {0})
  -- `viper.BindPFlag` of a key with the flag that `Lookup` finds; its error is dropped.
  pub bind_flag : Text → FlagRef → W → W
  -- `MarkFlagRequired`, `rootCmd.AddCommand`, and `cobra.OnInitialize(initConfig)`.
  pub mark_required : Text → Text → W → W
  pub add_command : Text → W → W
  pub on_initialize : W → W
  -- The flag that a key is bound to, as `viper.Get` finds it.
  pub bound : Text → W → Option FlagRef

module _ {W : Type 0} (cobra : Cobra W) where
  pub add_flags : Text → List Flag → Action W (Unit {0})
  add_flags name [] = pure tt
  add_flags name (f ∷ fs) = cobra.add_flag name f >>= λ _. add_flags name fs

  pub bind_all : Text → List (Text × Text) → W → W
  bind_all name [] w = w
  bind_all name ((key, f) ∷ bs) w = bind_all name bs (cobra.bind_flag key (name, f) w)

  -- A command's `init`: its flags, its bindings, and the command itself. The flag `server` of dhcpd
  -- is required.
  unfoldable pub init_command : Command → Action W (Unit {0})
  unfolding add_flags bind_all
  init_command c = add_flags c.use_name c.flags >>= λ _ w. (
    ok tt,
    cobra.add_command c.use_name (
        bind_all c.use_name c.bindings (
          if text_eq c.use_name (lit "dhcpd")
          then cobra.mark_required c.use_name (lit "server") w
          else w)),
  )

  unfoldable pub init_commands : List Command → Action W (Unit {0})
  unfolding init_command
  init_commands [] = pure tt
  init_commands (c ∷ cs) = init_command c >>= λ _. init_commands cs

  -- `init` of cmd/root.go
  unfoldable pub init_root : Action W (Unit {0})
  init_root w =
      (cobra.add_persistent_flag (record { name = lit "config"; shorthand = []; default = text [] })
          >>= λ _.
              cobra.add_flag (lit "kloudstack")
                (record { name = lit "version"; shorthand = lit "v"; default = toggle false }))
        (cobra.on_initialize w)

  -- All `init` functions of cmd, before `main`.
  unfoldable pub init_program : Action W (Unit {0})
  unfolding init_commands init_root
  init_program = init_commands before_root >>= λ _. (init_root >>= λ _. init_commands after_root)

  -- What is relied on of pflag: a shorthand of more than one byte is a panic.
  abbrev pub RefusesLong : Type 0
  RefusesLong =
      (name : Text) (f : Flag) (w : W)
      → 1 < length f.shorthand
      → (cobra.add_flag name f w).0 ≡ panic
