-- ===== src/Ipam/Create/Orphan.antt =====
-- An allocation that fails after its cluster IP was created.
use kloudstack.Base.{◌≡◌, sym, ap, ◌∙◌, false, some, arith, inl, inr}
use mathlib.Core.Path.{subst}
use kloudstack.Base.Text.{Text}
use kloudstack.Base.Result.{Error, ok, err}
use kloudstack.NetUtils.Ip.{pick_usable_ip}
use kloudstack.Api.Network.{ClusterIp, ClusterIpPool}
use kloudstack.Ipam.Allocation.{counts_of, exhausted}
use kloudstack.Ipam.Finders.{Env, find_empty_cluster_ip_pool}
use kloudstack.Ipam.Create.{
  Claim, new_cluster_ip, moved_on, create_at, store_counts, use_next, allocate, create_cluster_ip,
}
use kloudstack.Ipam.Create.Laws.{create_cluster_ip-ok}
use kloudstack.Ipam.Create.Distinct.{Echoes}

module _ {W : Type 0} (env : Env W) where
  -- The calls of an allocation whose last one, the storing of the pool's status, is refused: the
  -- cluster IP is created by then.
  abbrev pub Refused : Claim → ClusterIpPool → W → ClusterIp → Error → W → Type 0
  Refused c pool w cip e w' =
      (address : Text) × (v : W) × (find_empty_cluster_ip_pool env c.family w ≡ (ok pool, w))
      × (exhausted (counts_of pool.status) ≡ false)
      × (pick_usable_ip pool.spec.cidr (some (counts_of pool.status).next) ≡ ok address)
      × (env.cluster_ips.create (new_cluster_ip c pool address (env.now w)) w ≡ (ok cip, v))
      × (env.cluster_ip_pools.update_status (moved_on pool) v ≡ (err e, w'))

  refused_fails :
      (c : Claim) (pool : ClusterIpPool) (w : W) (cip : ClusterIp) (e : Error) (w' : W)
      → Refused c pool w cip e w'
      → create_cluster_ip env c w ≡ (err e, w')
  unfolding create_cluster_ip allocate use_next create_at store_counts
  refused_fails c pool w cip e w' (address, v, found, more, picked, created, refused) =
      rw (found, more, picked, created, refused)

module _ {W : Type 0} (env : Env W) (echoes : Echoes env) where
  -- The address of a new cluster IP is the one at the next index of the pool that was found.
  picked_address :
      (c : Claim) (pool : ClusterIpPool) (w : W) (cip : ClusterIp) (p : ClusterIpPool) (w' : W)
      → find_empty_cluster_ip_pool env c.family w ≡ (ok pool, w)
      → create_cluster_ip env c w ≡ (ok (cip, some p), w')
      → pick_usable_ip pool.spec.cidr (some (counts_of pool.status).next) ≡ ok cip.spec.address
  unfolding new_cluster_ip
  picked_address c pool w cip p w' found e = elim (create_cluster_ip-ok env c w cip (some p) w' e) [
    | inr (no_pool, _) ↦ absurd (cc)
    | inl (q, same, (pool', address, v, found', more, picked, created, put)) ↦
        let own : pool' ≡ pool = cc in
        let shown : cip.spec.address ≡ address =
          ap (λ s. s.address)
            (echoes.create-spec (new_cluster_ip c pool' address (env.now w)) w created) in
        subst
          (λ (x : ClusterIpPool).
            pick_usable_ip x.spec.cidr (some (counts_of x.status).next) ≡ ok cip.spec.address)
          own (picked ∙ ap ok (sym shown))
  ]

  -- If storing the pool's status is refused, the call fails with that error, while the cluster IP that
  -- it has created keeps its address; and a later call that is served a new address from the pool as
  -- it was is given the same address again.
  pub create_cluster_ip-orphan :
      (c c' : Claim) (pool : ClusterIpPool) (w w' u u' : W) (cip cip' : ClusterIp) (e : Error)
      (p : ClusterIpPool)
      → Refused env c pool w cip e w'
      → find_empty_cluster_ip_pool env c'.family u ≡ (ok pool, u)
      → create_cluster_ip env c' u ≡ (ok (cip', some p), u')
      → (create_cluster_ip env c w ≡ (err e, w')) × (cip'.spec.address ≡ cip.spec.address)
  unfolding new_cluster_ip
  create_cluster_ip-orphan c c' pool w w' u u' cip cip' e p refused found again =
      let (address, v, _, _, picked, created, _) = refused in
      let picked' = picked_address c' pool u cip' p u' found again in
      let shown : cip.spec.address ≡ address =
        ap (λ s. s.address)
          (echoes.create-spec (new_cluster_ip c pool address (env.now w)) w created) in
      (refused_fails env c pool w cip e w' refused, ground arith)
