-- ===== src/Ipam/Create/Phases/Stores.antt =====
-- What storing the pool's status does to what the calls know of it, and so every access of a call
-- (`createClusterIP` of pkg/ipam/ipam.go).
use kloudstack.Base.{
  ℕ, ◌<◌, ◌≡◌, refl, sym, ap, ◌∙◌, inl, inr, true, false, none, some, List, arith, Bool-cases,
}
use mathlib.Core.Path.{subst}
use kloudstack.Base.Int.{◌≤ℤ◌, int_laws}
use kloudstack.Base.Text.{Text}
use kloudstack.Base.Result.{Result, ok, err, panic}
use kloudstack.NetUtils.Ip.{pick_usable_ip}
use kloudstack.Api.Core.{Meta}
use kloudstack.Api.Network.{ClusterIp, ClusterIpPool, ClusterIpPoolStatus}
use kloudstack.Ipam.Allocation.{Counts, counts_of, exhausted, counted}
use kloudstack.Ipam.Allocation.Runs.{counts_of-stored, counted-next}
use kloudstack.Ipam.Finders.{Env, find_empty_cluster_ip_pool}
use kloudstack.Ipam.Create.{moved_on}
use kloudstack.Ipam.Create.Distinct.{IsAddressOf}
use kloudstack.Ipam.Create.Phases.{Phase, start, holding, taking, made, ended, then_to, step}
use kloudstack.Ipam.Create.Phases.Versions.{Passed, Later, Versioned, Held, Knows}
use kloudstack.Ipam.Create.Phases.Moves.{Moved, quiet, Moved-start, Moved-released, Moved-next}

counted-next-ge : (c : Counts) → c.next ≤ℤ (counted c).next
unfolding counted
counted-next-ge c = grind int_laws

Passed-counted : (c : Counts) (q : ClusterIpPool) → counts_of q.status ≡ counted c → Passed c.next q
Passed-counted c q e = elim (counted-next c) [
  | inl up ↦ inl (rw e (rw up (omega int_laws)))
  | inr full ↦ inr (rw e full)
]

-- The released cluster IPs are not counted.
counts_of-released :
    (st : ClusterIpPoolStatus) (rest : List Text)
    → counts_of (record st { released_cluster_ips = rest }) ≡ counts_of st
unfolding counts_of
counts_of-released st rest = refl

Later-counts :
    (version : Meta → ℕ) (q r : ClusterIpPool)
    → version q.meta < version r.meta
    → r.spec ≡ q.spec
    → counts_of r.status ≡ counts_of q.status
    → Later version q r
Later-counts version q r up spec counts = inr (
  up,
  spec,
  subst (λ (x : Counts). (counts_of q.status).next ≤ℤ x.next) (sym counts) (omega arith),
  subst (λ (x : Counts). exhausted (counts_of q.status) ≡ true → exhausted x ≡ true) (sym counts)
      (λ full. full),
)

module _ {W : Type 0} (env : Env W) (version : Meta → ℕ) (current : W → ClusterIpPool)
    (lawful : Versioned env version current) (cidr : Text) where
  -- The pool that was read is the current one, if its status could be stored.
  Held-current :
      (p q : ClusterIpPool) (w : W) {q' : ClusterIpPool} {w' : W}
      → Held version cidr p (current w)
      → q.meta ≡ p.meta
      → env.cluster_ip_pools.update_status q w ≡ (ok q', w')
      → p ≡ current w
  Held-current p q w (at, inl now) m e = now
  Held-current p q w (at, inr lt) m e =
      let (same, _, _, _) = lawful.stores q w e in absurd (omega (arith, ap version m))

  Moved-taking :
      (p : ClusterIpPool) (rest : List Text) (cip : ClusterIp) (w : W)
      (m : Result ClusterIpPool × W)
      → Held version cidr p (current w)
      → exhausted (counts_of p.status) ≡ true
      → env.cluster_ip_pools.update_status
          (record p { status = record (p.status) { released_cluster_ips = rest } })
          w
        ≡ m
      → Moved env version current lawful cidr
          (taking p rest cip)
          w
          (then_to (λ _. ended (ok (cip, none))) m)
  Moved-taking p rest cip w (ok q', u) h full e =
      let q : ClusterIpPool = record p {
        status = record (p.status) { released_cluster_ips = rest };
      } in
      let now = Held-current p q w h refl e in
      let (_, up, spec, status) = lawful.stores q w e in
      let counts : counts_of (current u).status ≡ counts_of (current w).status =
        ap counts_of status
        ∙ counts_of-released p.status rest
        ∙ ap (λ (x : ClusterIpPool). counts_of x.status) now in
      (Later-counts version (current w) (current u) up spec counts, tt, inl refl)
  Moved-taking p rest cip w (err x, u) h full e =
      quiet env version current lawful cidr (taking p rest cip) w (ended (err x)) u
        (lawful.refuses _ w e) tt refl
  Moved-taking p rest cip w (panic, u) h full e =
      quiet env version current lawful cidr (taking p rest cip) w (ended panic) u
        (lawful.crashes _ w e) tt refl

  Moved-stored :
      (p : ClusterIpPool) (cip : ClusterIp) (w : W) (m : Result ClusterIpPool × W)
      → Held version cidr p (current w)
      → exhausted (counts_of p.status) ≡ false
      → (a : ℕ) → IsAddressOf cidr (counts_of p.status).next a cip.spec.address
      → env.cluster_ip_pools.update_status (moved_on p) w ≡ m
      → Moved env version current lawful cidr
          (made p cip)
          w
          (then_to (λ q. ended (ok (cip, some q))) m)
  unfolding moved_on
  Moved-stored p cip w (ok q', u) h more a at e =
      let now = Held-current p (moved_on p) w h refl e in
      let (_, up, spec, status) = lawful.stores (moved_on p) w e in
      let own : counts_of p.status ≡ counts_of (current w).status =
        ap (λ (x : ClusterIpPool). counts_of x.status) now in
      let counts : counts_of (current u).status ≡ counted (counts_of (current w).status) =
        ap counts_of status
        ∙ counts_of-stored (counted (counts_of p.status)) p.status
        ∙ ap counted own in
      let open_yet : exhausted (counts_of (current w).status) ≡ false =
        subst (λ (x : Counts). exhausted x ≡ false) own more in
      (
        inr (
          up,
          spec,
          rw counts (counted-next-ge (counts_of (current w).status)),
          λ full. absurd (cc),
        ),
        tt,
        inr (
          cip,
          a,
          refl,
          subst (λ (x : Counts). IsAddressOf cidr x.next a cip.spec.address) own at,
          Passed-counted (counts_of (current w).status) (current u) counts,
          open_yet,
        ),
      )
  Moved-stored p cip w (err x, u) h more a at e =
      quiet env version current lawful cidr (made p cip) w (ended (err x)) u (lawful.refuses _ w e)
        tt refl
  Moved-stored p cip w (panic, u) h more a at e =
      quiet env version current lawful cidr (made p cip) w (ended panic) u (lawful.crashes _ w e) tt
        refl

  pub step-Moved :
      (p : Phase) (w : W)
      → (current w).spec.cidr ≡ cidr
      → Knows version cidr p (current w)
      → Moved env version current lawful cidr p w (step env p w)
  step-Moved (start c) w at k =
      unfold step in
      Moved-start env version current lawful cidr c w (find_empty_cluster_ip_pool env c.family w) at
        refl
  step-Moved (holding c p) w at k = elim (Bool-cases (exhausted (counts_of p.status))) [
    | inl full ↦
        unfold step in
        rw full (
          Moved-released env version current lawful cidr c p p.status.released_cluster_ips w k full)
    | inr more ↦
        unfold step in
        rw more (
          Moved-next env version current lawful cidr c p w
            (pick_usable_ip p.spec.cidr (some (counts_of p.status).next)) k more refl)
  ]
  step-Moved (taking p rest cip) w at (h, full) =
      unfold step in
      Moved-taking p rest cip w
        (env.cluster_ip_pools.update_status
          (record p { status = record (p.status) { released_cluster_ips = rest } }) w)
        h full refl
  step-Moved (made p cip) w at (h, more, (a, is)) =
      unfold step in
      Moved-stored p cip w (env.cluster_ip_pools.update_status (moved_on p) w) h more a is refl
  step-Moved (ended r) w at k =
      unfold step in quiet env version current lawful cidr (ended r) w (ended r) w refl tt refl
