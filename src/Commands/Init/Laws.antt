-- ===== src/Commands/Init/Laws.antt =====
-- What the `init` functions of cmd leave in the configuration.
use kloudstack.Base.{
  ◌<◌, ◌≡◌, refl, sym, ap, ◌∙◌, Bool, true, false, Option, none, some, List, [], ◌∷◌, ◌++◌, arith,
  length, if◌then◌else◌,
}
use kloudstack.Base.Text.{Text, lit, text_eq, to_lower}
use kloudstack.Base.Result.{Result, ok, err, panic, bind, bind-ok}
use kloudstack.Base.Result.Laws.{returned}
use kloudstack.Commands.Flags.{Flag, Command, cdn_controller_cmd, after_cdn, before_root}
use kloudstack.Commands.Init.{
  FlagRef, Cobra, add_flags, bind_all, init_command, init_commands, init_program, RefusesLong,
}

-- Keys are compared without their case.
abbrev pub same_key : Text → Text → Bool
same_key j k = text_eq (to_lower j) (to_lower k)

-- The last flag that a list of bindings has for a key.
unfoldable pub last_of : Text → List (Text × FlagRef) → Option FlagRef
last_of k [] = none
last_of k ((j, f) ∷ bs) = elim (last_of k bs) [
  | some g ↦ some g
  | none ↦ if same_key j k then some f else none
]

-- The bindings of a command and of commands, with the flags' commands.
abbrev pub refs_of : Text → List (Text × Text) → List (Text × FlagRef)
refs_of name [] = []
refs_of name ((k, f) ∷ bs) = (k, (name, f)) ∷ refs_of name bs

abbrev pub bindings_of : List Command → List (Text × FlagRef)
bindings_of [] = []
bindings_of (c ∷ cs) = refs_of c.use_name c.bindings ++ bindings_of cs

abbrev pub or_before : Option FlagRef → Option FlagRef → Option FlagRef
or_before none g = g
or_before (some f) g = some f

-- What is relied on of cobra and viper: a key is bound to the flag that it was bound to last.
pub record Binds {W : Type 0} (cobra : Cobra W) : Type 0 where
  pub bound-bind :
      (j k : Text) (f : FlagRef) (w : W)
      → cobra.bound k (cobra.bind_flag j f w) ≡ (if same_key j k then some f else cobra.bound k w)
  pub bound-flag :
      (name : Text) (f : Flag) (k : Text) (w : W) {w' : W}
      → cobra.add_flag name f w ≡ (ok tt, w')
      → cobra.bound k w' ≡ cobra.bound k w
  pub bound-required :
      (name f k : Text) (w : W) → cobra.bound k (cobra.mark_required name f w) ≡ cobra.bound k w
  pub bound-command :
      (name k : Text) (w : W) → cobra.bound k (cobra.add_command name w) ≡ cobra.bound k w

pub last_of-append :
    (k : Text) (xs ys : List (Text × FlagRef)) (g : Option FlagRef)
    → or_before (last_of k (xs ++ ys)) g ≡ or_before (last_of k ys) (or_before (last_of k xs) g)
unfolding last_of
last_of-append k [] ys g = refl
last_of-append k ((j, f) ∷ xs) ys g =
    ground (arith, last_of-append k xs ys g, last_of-append k xs ys none)

later_binding :
    (o : Option FlagRef) (same : Bool) (f : FlagRef) (g : Option FlagRef)
    → or_before o (if same then some f else g)
      ≡ or_before (elim o [ some h ↦ some h | none ↦ if same then some f else none ]) g
later_binding none true f g = refl
later_binding none false f g = refl
later_binding (some h) same f g = refl

module _ {W : Type 0} (cobra : Cobra W) (binds : Binds cobra) (k : Text) where
  bound-bind_all :
      (name : Text) (bs : List (Text × Text)) (w : W)
      → cobra.bound k (bind_all cobra name bs w)
        ≡ or_before (last_of k (refs_of name bs)) (cobra.bound k w)
  unfolding bind_all last_of
  bound-bind_all name [] w = refl
  bound-bind_all name ((j, f) ∷ bs) w =
      bound-bind_all name bs (cobra.bind_flag j (name, f) w)
      ∙ ap (or_before (last_of k (refs_of name bs))) (binds.bound-bind j k (name, f) w)
      ∙ later_binding (last_of k (refs_of name bs)) (same_key j k) (name, f) (cobra.bound k w)

  bound-add_flags :
      (name : Text) (fs : List Flag) (w : W) {w' : W}
      → add_flags cobra name fs w ≡ (ok tt, w')
      → cobra.bound k w' ≡ cobra.bound k w
  unfolding add_flags
  bound-add_flags name [] w e = sym (ap (cobra.bound k) (returned e).1)
  bound-add_flags name (f ∷ fs) w e =
      let (u, v, added, rest) =
        bind-ok (cobra.add_flag name f w) (λ _. add_flags cobra name fs) e in
      bound-add_flags name fs v rest ∙ binds.bound-flag name f k w added

  bound_required :
      (server : Bool) (name : Text) (w : W)
      → cobra.bound k (if server then cobra.mark_required name (lit "server") w else w)
        ≡ cobra.bound k w
  bound_required true name w = binds.bound-required name (lit "server") k w
  bound_required false name w = refl

  bound-init_command :
      (c : Command) (w : W) {w' : W}
      → init_command cobra c w ≡ (ok tt, w')
      → cobra.bound k w' ≡ or_before (last_of k (refs_of c.use_name c.bindings)) (cobra.bound k w)
  unfolding init_command
  bound-init_command c w {w'} e =
      let server = text_eq c.use_name (lit "dhcpd") in
      let (u, v, added, rest) =
        bind-ok (add_flags cobra c.use_name c.flags w)
          (λ _ v. (
            ok tt,
            cobra.add_command c.use_name (
                bind_all cobra c.use_name c.bindings
                  (if server then cobra.mark_required c.use_name (lit "server") v else v)),
          ))
          e in
      let v' : W = if server then cobra.mark_required c.use_name (lit "server") v else v in
      ap (cobra.bound k) (sym (returned rest).1)
      ∙ binds.bound-command c.use_name k (bind_all cobra c.use_name c.bindings v')
      ∙ bound-bind_all c.use_name c.bindings v'
      ∙ ap (or_before (last_of k (refs_of c.use_name c.bindings)))
          (bound_required server c.use_name v ∙ bound-add_flags c.use_name c.flags w added)

  -- Once the commands of a list are made, a key is bound to the flag of the last binding that any of
  -- them has for it, and where none has one it is bound as before.
  pub init_commands-bound :
      (cs : List Command) (w w' : W)
      → init_commands cobra cs w ≡ (ok tt, w')
      → cobra.bound k w' ≡ or_before (last_of k (bindings_of cs)) (cobra.bound k w)
  unfolding init_commands last_of
  init_commands-bound [] w w' e = sym (ap (cobra.bound k) (returned e).1)
  init_commands-bound (c ∷ cs) w w' e =
      let (u, v, first, rest) = bind-ok (init_command cobra c w) (λ _. init_commands cobra cs) e in
      init_commands-bound cs v w' rest
      ∙ ap (or_before (last_of k (bindings_of cs))) (bound-init_command c w first)
      ∙ sym (last_of-append k (refs_of c.use_name c.bindings) (bindings_of cs) (cobra.bound k w))

bind-panic :
    {W A B : Type 0} (m : Result A × W) (k : A → W → Result B × W)
    → m.0 ≡ panic
    → (bind m k).0 ≡ panic
bind-panic (ok a, w) k h = absurd (cc)
bind-panic (err e, w) k h = absurd (cc)
bind-panic (panic, w) k h = refl

module _ {W : Type 0} (cobra : Cobra W) (refuses : RefusesLong cobra) where
  add_flags-panics :
      (name : Text) (f : Flag) (fs : List Flag) (w : W)
      → 1 < length f.shorthand
      → (add_flags cobra name (f ∷ fs) w).0 ≡ panic
  unfolding add_flags
  add_flags-panics name f fs w long =
      bind-panic (cobra.add_flag name f w) (λ _. add_flags cobra name fs) (refuses name f w long)

  init_command-panics :
      (c : Command) (f : Flag) (fs : List Flag) (w : W)
      → c.flags ≡ f ∷ fs
      → 1 < length f.shorthand
      → (init_command cobra c w).0 ≡ panic
  unfolding init_command
  init_command-panics c f fs w first long =
      bind-panic (add_flags cobra c.use_name c.flags w) _
        (rw first (add_flags-panics c.use_name f fs w long))

  init_commands-panics :
      (c : Command) (cs : List Command) (w : W)
      → (init_command cobra c w).0 ≡ panic
      → (init_commands cobra (c ∷ cs) w).0 ≡ panic
  unfolding init_commands
  init_commands-panics c cs w h =
      bind-panic (init_command cobra c w) (λ _. init_commands cobra cs) h

  -- The `init` functions of cmd end in a panic, before `main` and for every command: the first flag
  -- that they add has a shorthand of two bytes.
  pub init_program-panics : (w : W) → (init_program cobra w).0 ≡ panic
  unfolding init_program
  init_program-panics w = bind-panic (init_commands cobra before_root w) _ (
      init_commands-panics cdn_controller_cmd after_cdn w
        (init_command-panics cdn_controller_cmd _ _ w refl (omega arith)))
