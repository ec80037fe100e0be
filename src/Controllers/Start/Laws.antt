-- ===== src/Controllers/Start/Laws.antt =====
-- When a controller is made, and with what.
use kloudstack.Base.{◌≡◌, refl, sym, ◌⊎◌, inl, inr, arith}
use mathlib.Core.Path.{subst}
use kloudstack.Base.Result.{Result, ok, err, panic}
use kloudstack.Base.Ending.{Ending, exited, panicked, fatal}
use kloudstack.K8s.{ClientGo, new_client}
use kloudstack.Ovsdb.{Libovsdb}
use kloudstack.Ovs.Agent.{create_ovs_agent}
use kloudstack.Ovn.Agent.{create_ovn_agent}
use kloudstack.Controllers.Start.{nb_endpoint, Clients, new_controller}

-- How a chain of calls ends that may end the program: with status 255 at an error, by a panic, or
-- going on with `P`.
abbrev pub Ends : {W : Type 0} → Ending × W → Type 0 → Type 0
Ends {W} m P = ((v : W) × (m ≡ (exited 255, v))) ⊎ ((v : W) × (m ≡ (panicked, v))) ⊎ P

fatal-Ends :
    {W A : Type 0} {P : Type 0} (m : Result A × W) (k : A → W → Ending × W)
    → ((a : A) (v : W) → m ≡ (ok a, v) → Ends (k a v) P)
    → Ends (fatal m k) P
fatal-Ends (ok a, v) k h = h a v refl
fatal-Ends (err e, v) k h = inl (v, refl)
fatal-Ends (panic, v) k h = inr (inl (v, refl))

same_world :
    {W A : Type 0} {r : Result A} {a : A} {w v : W}
    → ◌≡◌ {A = Result A × W} (r, w) (ok a, v)
    → (r ≡ ok a) × (w ≡ v)
same_world e = (ground arith, ground arith)

module _ {W Config Client Dynamic Model Ovsdb : Type 0} (go : ClientGo W Config Client Dynamic)
    (lib : Libovsdb W Model Ovsdb) (k : Clients Client Ovsdb → W → Ending × W) (w : W) where
  -- The clients are made one after the other, without an error: the Kubernetes client, the agent of
  -- OVS, and that of OVN at the address in the code.
  abbrev pub Ready : Clients Client Ovsdb → W → Type 0
  Ready c w' =
      (v : W) × (new_client go w ≡ ok c.client)
      × (create_ovs_agent lib w ≡ (ok c.ovs_agent, v))
      × (create_ovn_agent lib nb_endpoint v ≡ (ok c.ovn_agent, w'))

  -- A controller goes on with its three clients in place, each of which was made without an error, or
  -- the program has ended: with status 255, or by a panic of what it calls.
  pub new_controller-Ready :
      Ends
        (new_controller go lib k w)
        ((c : Clients Client Ovsdb) × (v : W) × Ready c v × (new_controller go lib k w ≡ k c v))
  new_controller-Ready =
      unfold new_controller in
      fatal-Ends (new_client go w, w) _
        (λ client w1 e1. fatal-Ends (create_ovs_agent lib w1) _ (λ ovs w2 e2.
          fatal-Ends (create_ovn_agent lib nb_endpoint w2) _ (λ ovn w3 e3.
            let (made, same) = same_world e1 in
            let ovs_made : create_ovs_agent lib w ≡ (ok ovs, w2) =
              subst (λ (x : W). create_ovs_agent lib x ≡ (ok ovs, w2)) (sym same) e2 in
            inr (
              inr (
                record { client = client; ovs_agent = ovs; ovn_agent = ovn },
                w3,
                (w2, made, ovs_made, e3),
                rw (made, ovs_made, e3) refl,
              )))))
