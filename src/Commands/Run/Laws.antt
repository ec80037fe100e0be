-- ===== src/Commands/Run/Laws.antt =====
-- What the commands of cmd start.
use kloudstack.Base.{ℕ, ◌≡◌, ◌≢◌, refl, ◌⊎◌, inl, inr, false, Option, none, some, arith, Bool-cases}
use kloudstack.Base.Text.{Text, lit, text_eq, text_eq_iff}
use kloudstack.Base.Result.{Result}
use kloudstack.Base.Ending.{Ending, finished, exited}
use kloudstack.Net.{parse_ip}
use kloudstack.Config.{Viper}
use kloudstack.Commands.Run.{end_with, serve_family, with_server, run_dhcpd_cmd, pre_run, dhcpd}

v4_or_v6 :
    (family : Text)
    → (family ≡ lit "v4") ⊎ (family ≡ lit "v6") ⊎ ((family ≢ lit "v4") × (family ≢ lit "v6"))
v4_or_v6 family = elim (Bool-cases (text_eq family (lit "v4"))) [
  | inl e ↦ inl ((text_eq_iff family (lit "v4")).0 e)
  | inr n ↦ elim (Bool-cases (text_eq family (lit "v6"))) [
    | inl e ↦ inr (inl ((text_eq_iff family (lit "v6")).0 e))
    | inr m ↦ inr (
        inr (
          (λ e. absurd (ground (arith, (text_eq_iff family (lit "v4")).1 e))),
          (λ e. absurd (ground (arith, (text_eq_iff family (lit "v6")).1 e))),
        ))
  ]
]

text_ne : (s t : Text) → s ≢ t → text_eq s t ≡ false
text_ne s t differ = elim (Bool-cases (text_eq s t)) [
  | inl e ↦ absurd (differ ((text_eq_iff s t).0 e))
  | inr n ↦ n
]

Option-cases : {A : Type 0} (o : Option A) → (o ≡ none) ⊎ ((a : A) × (o ≡ some a))
Option-cases none = inl refl
Option-cases (some a) = inr (a, refl)

module _ {W : Type 0} (viper : Viper W)
    (start_v4 : Text → (Result (Unit {0}) × W → Ending × W) → W → Ending × W) (w : W) where
  abbrev family_now : Text
  family_now = viper.get_string (lit "IPFAMILY") w

  abbrev server_now : Option ℕ
  server_now = parse_ip (viper.get_string (lit "SERVER") w)

  abbrev pub Refused : Type 0
  Refused = ((family_now ≢ lit "v4") × (family_now ≢ lit "v6")) ⊎ (server_now ≡ none)

  -- The DHCP command starts its server exactly for the family v4 and with an address of the server that
  -- parses, on the interface that is configured, and an error of it is status 1; for v6 it starts
  -- nothing and ends well; and without such a family or address it ends with status 1. Where it starts
  -- nothing, nothing is changed.
  pub dhcpd-starts :
      ((family_now ≡ lit "v4")
        × ((ip : ℕ) × (server_now ≡ some ip))
        × (dhcpd viper start_v4 w
            ≡ start_v4 (viper.get_string (lit "INTERFACE") w) (end_with (exited 1)) w))
      ⊎ ((family_now ≡ lit "v6")
          × ((ip : ℕ) × (server_now ≡ some ip))
          × (dhcpd viper start_v4 w ≡ (finished, w)))
      ⊎ (Refused × (dhcpd viper start_v4 w ≡ (exited 1, w)))
  unfolding dhcpd pre_run run_dhcpd_cmd with_server serve_family text_eq
  dhcpd-starts = elim (v4_or_v6 family_now) [
    | inl v4 ↦ elim (Option-cases server_now) [
      | inl bad ↦ inr (inr (inr bad, rw (v4, bad)))
      | inr (ip, good) ↦ inl (v4, (ip, good), rw (v4, good))
    ]
    | inr (inl v6) ↦ elim (Option-cases server_now) [
      | inl bad ↦ inr (inr (inr bad, rw (v6, bad)))
      | inr (ip, good) ↦ inr (inl (v6, (ip, good), rw (v6, good)))
    ]
    | inr (inr (n4, n6)) ↦ inr (
        inr (inl (n4, n6), rw (text_ne family_now (lit "v4") n4, text_ne family_now (lit "v6") n6)))
  ]
