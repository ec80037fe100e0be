-- ===== src/Commands/Tests.antt =====
-- The commands over a world that lists what keys were bound to, the last first.
use kloudstack.Base.{
  ℕ, ◌≡◌, refl, ◌⊎◌, Bool, true, false, Option, none, some, List, [], ◌∷◌, length, ltb, arith,
  if◌then◌else◌,
}
use kloudstack.Base.Text.{Text, lit, text_eq}
use kloudstack.Base.Result.{Result, ok, panic}
use kloudstack.Base.Ending.{Ending, finished, exited}
use kloudstack.Net.{parse_ip, dotted}
use kloudstack.Config.{Viper}
use kloudstack.Commands.Init.{FlagRef, Cobra, init_program, RefusesLong}
use kloudstack.Commands.Init.Laws.{same_key, Binds, init_program-panics}
use kloudstack.Commands.Run.{end_with, dhcpd}
use kloudstack.Commands.Run.Laws.{Refused, dhcpd-starts}

abbrev Bound : Type 0
Bound = List (Text × FlagRef)

abbrev bound_in : Text → Bound → Option FlagRef
bound_in k [] = none
bound_in k ((j, f) ∷ w) = if same_key j k then some f else bound_in k w

abbrev refuse : Bool → Bound → Result (Unit {0}) × Bound
refuse true w = (panic, w)
refuse false w = (ok tt, w)

abbrev listing : Cobra Bound
listing = record {
  add_flag = λ name f w. refuse (ltb 1 (length f.shorthand)) w;
  add_persistent_flag = λ f w. (ok tt, w);
  bind_flag = λ k f w. (k, f) ∷ w;
  mark_required = λ name f w. w;
  add_command = λ name w. w;
  on_initialize = λ w. w;
  bound = bound_in;
}

refuse_keeps :
    (long : Bool) (k : Text) (w : Bound) {w' : Bound}
    → refuse long w ≡ (ok tt, w')
    → bound_in k w' ≡ bound_in k w
refuse_keeps true k w e = absurd (cc)
refuse_keeps false k w e = ground arith

listing-Binds : Binds listing
listing-Binds = record {
  bound-bind = λ j k f w. refl;
  bound-flag = λ name f k w e. refuse_keeps (ltb 1 (length f.shorthand)) k w e;
  bound-required = λ name f k w. refl;
  bound-command = λ name k w. refl;
}

listing-RefusesLong : RefusesLong listing
listing-RefusesLong name f w long =
    let e : ltb 1 (length f.shorthand) ≡ true = ground arith in rw e refl

init_program-panics_example : (init_program listing []).0 ≡ panic
init_program-panics_example = init_program-panics listing listing-RefusesLong []

-- The DHCP command with a world of notes: for the family v4, and for no family.
abbrev configured : Text → Viper (List Text)
configured family = record {
  get_string = λ k w.
      if text_eq k (lit "IPFAMILY")
      then family
      else if text_eq k (lit "SERVER")
      then lit "10.0.0.2"
      else lit "br-ext";
  get_string_slice = λ k w. [];
  get_bool = λ k w. true;
  get_int32 = λ k w. [];
  get_int = λ k w. 0;
}

abbrev noting :
    Text → (Result (Unit {0}) × List Text → Ending × List Text) → List Text → Ending × List Text
noting iface back w = back (ok tt, iface ∷ w)

served_v4 : dhcpd (configured (lit "v4")) noting [] ≡ (finished, lit "br-ext" ∷ [])
unfolding dhcpd text_eq parse_ip dotted
served_v4 = refl

refused_v5 : dhcpd (configured (lit "v5")) noting [] ≡ (exited 1, [])
unfolding dhcpd text_eq
refused_v5 = refl

abbrev v4 : Viper (List Text)
v4 = configured (lit "v4")

dhcpd-starts_example :
    ((v4.get_string (lit "IPFAMILY") [] ≡ lit "v4")
      × ((ip : ℕ) × (parse_ip (v4.get_string (lit "SERVER") []) ≡ some ip))
      × (dhcpd v4 noting [] ≡ noting (v4.get_string (lit "INTERFACE") []) (end_with (exited 1)) []))
    ⊎ ((v4.get_string (lit "IPFAMILY") [] ≡ lit "v6")
        × ((ip : ℕ) × (parse_ip (v4.get_string (lit "SERVER") []) ≡ some ip))
        × (dhcpd v4 noting [] ≡ (finished, [])))
    ⊎ (Refused v4 noting [] × (dhcpd v4 noting [] ≡ (exited 1, [])))
dhcpd-starts_example = dhcpd-starts v4 noting []
