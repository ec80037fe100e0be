-- ===== src/Ipam/Create/Distinct.antt =====
-- Two allocations in a row from one pool.
use kloudstack.Base.{ℕ, ◌≡◌, ◌≢◌, sym, ap, ◌∙◌, inl, inr, false, some, arith}
use mathlib.Core.Path.{subst, subst₂}
use kloudstack.Base.Int.{ℤ, pos, ◌+ℤ◌, int_laws}
use kloudstack.Base.Text.{Text}
use kloudstack.Base.Result.{ok}
use kloudstack.Net.{IpNet, parse_cidr}
use kloudstack.NetUtils.Ip.{address_at, print_address, pick_usable_ip}
use kloudstack.NetUtils.Ip.Range.{address_at-injective}
use kloudstack.NetUtils.Ip.Pick.{pick_usable_ip-ok}
use kloudstack.Api.Network.{ClusterIp, ClusterIpPool}
use kloudstack.Ipam.Allocation.{Counts, counts_of, exhausted, counted}
use kloudstack.Ipam.Allocation.Runs.{counts_of-stored, counted-next}
use kloudstack.Ipam.Finders.{Env, find_empty_cluster_ip_pool}
use kloudstack.Ipam.Create.{Claim, new_cluster_ip, moved_on, create_cluster_ip}
use kloudstack.Ipam.Create.Laws.{create_cluster_ip-ok}

-- The address of an index of a CIDR, as a number and as it is printed.
abbrev pub IsAddressOf : Text → ℤ → ℕ → Text → Type 0
IsAddressOf cidr i a t =
    (ip : ℕ) × (n : IpNet) × (parse_cidr cidr ≡ some (ip, n))
    × (address_at ip n i ≡ some a)
    × (t ≡ print_address ip a)

pub IsAddressOf-injective :
    (cidr : Text) (i j : ℤ) (a : ℕ) (t u : Text)
    → IsAddressOf cidr i a t
    → IsAddressOf cidr j a u
    → i ≡ j
IsAddressOf-injective cidr i j a t u (ip, n, p, e, _) (ip', n', p', e', _) =
    let same : ip ≡ ip' = ground arith in
    let net : n ≡ n' = ground arith in
    address_at-injective ip n i j e
      (subst₂ (λ (x : ℕ) (m : IpNet). address_at x m j ≡ some a) (sym same) (sym net) e')

counted_next_up : (c : Counts) → exhausted (counted c) ≡ false → (counted c).next ≡ c.next +ℤ pos 1
counted_next_up c more = elim (counted-next c) [ inl up ↦ up | inr full ↦ absurd (cc) ]

next_differs : (i : ℤ) → i ≢ i +ℤ pos 1
next_differs i e = absurd (grind int_laws)

pub pick-IsAddressOf :
    (cidr : Text) (i : ℤ) {t : Text}
    → pick_usable_ip cidr (some i) ≡ ok t
    → (a : ℕ) × IsAddressOf cidr i a t
pick-IsAddressOf cidr i e =
    let (ip, n, a, p, q, r) = pick_usable_ip-ok cidr i e in (a, (ip, n, p, q, r))

-- What is relied on of the client: it returns the spec that it was given, and the status that it
-- stored.
pub record Echoes {W : Type 0} (env : Env W) : Type 0 where
  pub create-spec :
      (o : ClusterIp) (w : W) {o' : ClusterIp} {w' : W}
      → env.cluster_ips.create o w ≡ (ok o', w')
      → o'.spec ≡ o.spec
  pub update_status-same :
      (q : ClusterIpPool) (w : W) {q' : ClusterIpPool} {w' : W}
      → env.cluster_ip_pools.update_status q w ≡ (ok q', w')
      → (q'.spec ≡ q.spec) × (q'.status ≡ q.status)

module _ {W : Type 0} (env : Env W) (echoes : Echoes env) where
  -- What one allocation gives: the address at the next index of a pool that is not used up, and
  -- the pool with its counts moved on.
  allocated_one :
      (c : Claim) (w : W) (cip : ClusterIp) (p : ClusterIpPool) (w' : W)
      → create_cluster_ip env c w ≡ (ok (cip, some p), w')
      → (pool : ClusterIpPool) × (a : ℕ) × (find_empty_cluster_ip_pool env c.family w
          ≡ (ok pool, w))
        × (exhausted (counts_of pool.status) ≡ false)
        × IsAddressOf pool.spec.cidr (counts_of pool.status).next a cip.spec.address
        × (p.spec ≡ pool.spec)
        × (counts_of p.status ≡ counted (counts_of pool.status))
  unfolding new_cluster_ip moved_on
  allocated_one c w cip p w' e = elim (create_cluster_ip-ok env c w cip (some p) w' e) [
    | inr (no_pool, _) ↦ absurd (cc)
    | inl (q, same, (pool, address, v, found, more, picked, created, put)) ↦
        let (a, at) = pick-IsAddressOf pool.spec.cidr (counts_of pool.status).next picked in
        let own : q ≡ p = cc in
        let (spec, status) = echoes.update_status-same (moved_on pool) v put in
        let shown : cip.spec.address ≡ address =
          ap (λ s. s.address)
            (echoes.create-spec (new_cluster_ip c pool address (env.now w)) w created) in
        (
          pool,
          a,
          found,
          more,
          subst (λ (t : Text). IsAddressOf pool.spec.cidr (counts_of pool.status).next a t)
              (sym shown) at,
          subst (λ (x : ClusterIpPool). x.spec ≡ pool.spec) own spec,
          subst (λ (x : ClusterIpPool). counts_of x.status ≡ counted (counts_of pool.status)) own
              (ap counts_of status
                ∙ counts_of-stored (counted (counts_of pool.status)) pool.status),
        )
  ]

  -- Two allocations in a row from one pool, the second from the pool that the first has stored, give
  -- the addresses of an index and of the one behind it, which are different addresses of the pool's
  -- CIDR.
  pub create_cluster_ip-distinct :
      (c c' : Claim) (w w' w'' : W) (cip cip' : ClusterIp) (p p' : ClusterIpPool)
      → create_cluster_ip env c w ≡ (ok (cip, some p), w')
      → find_empty_cluster_ip_pool env c'.family w' ≡ (ok p, w')
      → create_cluster_ip env c' w' ≡ (ok (cip', some p'), w'')
      → (i : ℤ) × (a : ℕ) × (a' : ℕ) × IsAddressOf p.spec.cidr i a cip.spec.address
        × IsAddressOf p.spec.cidr (i +ℤ pos 1) a' cip'.spec.address
        × (a ≢ a')
  create_cluster_ip-distinct c c' w w' w'' cip cip' p p' first again second =
      let (pool, a, _, _, at, spec, moved) = allocated_one c w cip p w' first in
      let (pool', a', found', more', at', _, _) = allocated_one c' w' cip' p' w'' second in
      let same : pool' ≡ p = ground arith in
      let i = (counts_of pool.status).next in
      let more : exhausted (counted (counts_of pool.status)) ≡ false =
        subst (λ (x : Counts). exhausted x ≡ false) moved
          (subst (λ (x : ClusterIpPool). exhausted (counts_of x.status) ≡ false) same more') in
      let up : (counts_of p.status).next ≡ i +ℤ pos 1 =
        ap (λ (x : Counts). x.next) moved ∙ counted_next_up (counts_of pool.status) more in
      let here = subst (λ s. IsAddressOf s.cidr i a cip.spec.address) (sym spec) at in
      let there =
        subst (λ (j : ℤ). IsAddressOf p.spec.cidr j a' cip'.spec.address) up
          (subst
            (λ (x : ClusterIpPool).
              IsAddressOf x.spec.cidr (counts_of x.status).next a' cip'.spec.address)
            same at') in
      (
        i,
        a,
        a',
        here,
        there,
        λ equal. next_differs i (
            IsAddressOf-injective p.spec.cidr i (i +ℤ pos 1) a cip.spec.address cip'.spec.address
              here
              (subst (λ (x : ℕ). IsAddressOf p.spec.cidr (i +ℤ pos 1) x cip'.spec.address)
                (sym equal) there)),
      )
