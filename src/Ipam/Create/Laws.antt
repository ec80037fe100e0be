-- ===== src/Ipam/Create/Laws.antt =====
-- What a call that succeeds has written, and when a call panics.
use kloudstack.Base.{
  ◌≡◌, refl, ◌⊎◌, inl, inr, true, false, Option, none, some, List, [], ◌∷◌, arith, Bool-cases,
}
use mathlib.Core.Path.{subst, subst₂}
use kloudstack.Base.Text.{Text}
use kloudstack.Base.Result.{Result, ok, pure, bind-ok}
use kloudstack.NetUtils.Ip.{pick_usable_ip}
use kloudstack.Api.Network.{ClusterIp, ClusterIpPool}
use kloudstack.Ipam.Allocation.{counts_of, exhausted}
use kloudstack.Ipam.Finders.{Env, find_empty_cluster_ip_pool}
use kloudstack.Ipam.Create.{
  Claim, new_cluster_ip, moved_on, take_released, use_released, create_at, store_counts, use_next,
  allocate, create_cluster_ip,
}

module _ {W : Type 0} (env : Env W) where
  -- The writes of an allocation of a new address: the cluster IP is created with the address at
  -- the pool's next index, and then the pool's status is stored with its counts moved on.
  abbrev pub Allocated : Claim → W → ClusterIp → ClusterIpPool → W → Type 0
  Allocated c w cip p w' =
      (pool : ClusterIpPool) × (address : Text) × (v : W) × (find_empty_cluster_ip_pool env c.family
          w
        ≡ (ok pool, w))
      × (exhausted (counts_of pool.status) ≡ false)
      × (pick_usable_ip pool.spec.cidr (some (counts_of pool.status).next) ≡ ok address)
      × (env.cluster_ips.create (new_cluster_ip c pool address (env.now w)) w ≡ (ok cip, v))
      × (env.cluster_ip_pools.update_status (moved_on pool) v ≡ (ok p, w'))

  -- The writes of a call that takes a released cluster IP: the pool's status is stored without it.
  abbrev pub Reused : Claim → W → ClusterIp → W → Type 0
  Reused c w cip w' =
      (pool : ClusterIpPool) × (first : Text) × (rest : List Text) × (p : ClusterIpPool)
      × (find_empty_cluster_ip_pool env c.family w ≡ (ok pool, w))
      × (exhausted (counts_of pool.status) ≡ true)
      × (pool.status.released_cluster_ips ≡ first ∷ rest)
      × (env.cluster_ips.get [] first w ≡ ok cip)
      × (env.cluster_ip_pools.update_status
            (record pool { status = record (pool.status) { released_cluster_ips = rest } }) w
          ≡ (ok p, w'))

  pub find_empty-world :
      (family : Text) (w : W) {r : Result ClusterIpPool} {v : W}
      → find_empty_cluster_ip_pool env family w ≡ (r, v)
      → v ≡ w
  unfolding find_empty_cluster_ip_pool
  find_empty-world family w e = ground arith

  use_next-ok :
      (c : Claim) (pool : ClusterIpPool) (w : W) {cip : ClusterIp} {o : Option ClusterIpPool}
      {w' : W}
      → use_next env c pool w ≡ (ok (cip, o), w')
      → (p : ClusterIpPool) × (address : Text) × (v : W) × (o ≡ some p)
        × (pick_usable_ip pool.spec.cidr (some (counts_of pool.status).next) ≡ ok address)
        × (env.cluster_ips.create (new_cluster_ip c pool address (env.now w)) w ≡ (ok cip, v))
        × (env.cluster_ip_pools.update_status (moved_on pool) v ≡ (ok p, w'))
  unfolding use_next
  use_next-ok c pool w {cip} {o} {w'} e =
      let (address, u, p1, e1) =
        bind-ok (pick_usable_ip pool.spec.cidr (some (counts_of pool.status).next), w)
          (create_at env c pool) e in
      let (cip', v, p2, e2) =
        bind-ok (env.cluster_ips.create (new_cluster_ip c pool address (env.now u)) u)
          (store_counts env pool) e1 in
      let (p, v', p3, e3) =
        bind-ok (env.cluster_ip_pools.update_status (moved_on pool) v)
          (λ pool'. pure (cip', some pool')) e2 in
      let same : u ≡ w = ground arith in
      let created : cip' ≡ cip = ground arith in
      let moved : v' ≡ w' = ground arith in
      (
        p,
        address,
        v,
        ground arith,
        ground arith,
        subst₂
            (λ x y.
              env.cluster_ips.create (new_cluster_ip c pool address (env.now x)) x ≡ (ok y, v))
            same created p2,
        subst (λ x. env.cluster_ip_pools.update_status (moved_on pool) v ≡ (ok p, x)) moved p3,
      )

  use_released-ok :
      (pool : ClusterIpPool) (names : List Text) (w : W) {cip : ClusterIp}
      {o : Option ClusterIpPool} {w' : W}
      → use_released env pool names w ≡ (ok (cip, o), w')
      → (first : Text) × (rest : List Text) × (p : ClusterIpPool) × (o ≡ none)
        × (names ≡ first ∷ rest)
        × (env.cluster_ips.get [] first w ≡ ok cip)
        × (env.cluster_ip_pools.update_status
              (record pool { status = record (pool.status) { released_cluster_ips = rest } })
              w
            ≡ (ok p, w'))
  unfolding use_released
  use_released-ok pool [] w {cip} {o} {w'} e = absurd (cc)
  use_released-ok pool (first ∷ rest) w {cip} {o} {w'} e =
      let (cip', u, p1, e1) =
        bind-ok (env.cluster_ips.get [] first w, w) (take_released env pool rest) e in
      let (p, v, p2, e2) =
        bind-ok
          (env.cluster_ip_pools.update_status
            (record pool { status = record (pool.status) { released_cluster_ips = rest } }) u)
          (λ _. pure (cip', none)) e1 in
      let same : u ≡ w = ground arith in
      let moved : v ≡ w' = ground arith in
      (
        first,
        rest,
        p,
        ground arith,
        refl,
        ground arith,
        subst₂
            (λ x y.
              env.cluster_ip_pools.update_status
                (record pool { status = record (pool.status) { released_cluster_ips = rest } }) x
              ≡ (ok p, y))
            same moved p2,
      )

  -- A call that returns a cluster IP with its pool has made exactly the writes of one allocation,
  -- at the next index of a pool that is not used up; one that returns a cluster IP with no pool has
  -- taken the first released one from a pool that is used up.
  pub create_cluster_ip-ok :
      (c : Claim) (w : W) (cip : ClusterIp) (o : Option ClusterIpPool) (w' : W)
      → create_cluster_ip env c w ≡ (ok (cip, o), w')
      → ((p : ClusterIpPool) × (o ≡ some p) × Allocated c w cip p w')
        ⊎ ((o ≡ none) × Reused c w cip w')
  unfolding create_cluster_ip
  create_cluster_ip-ok c w cip o w' e =
      let (pool, u, found, e1) =
        bind-ok (find_empty_cluster_ip_pool env c.family w) (allocate env c) e in
      let same : u ≡ w = find_empty-world c.family w found in
      by_pool pool
        (subst (λ x. find_empty_cluster_ip_pool env c.family w ≡ (ok pool, x)) same found)
        (subst (λ x. allocate env c pool x ≡ (ok (cip, o), w')) same e1)
        (Bool-cases (exhausted (counts_of pool.status)))
    where
      by_pool :
          (pool : ClusterIpPool)
          → find_empty_cluster_ip_pool env c.family w ≡ (ok pool, w)
          → allocate env c pool w ≡ (ok (cip, o), w')
          → (exhausted (counts_of pool.status) ≡ true) ⊎ (exhausted (counts_of pool.status) ≡ false)
          → ((p : ClusterIpPool) × (o ≡ some p) × Allocated c w cip p w')
            ⊎ ((o ≡ none) × Reused c w cip w')
      by_pool pool found e1 (inl full) =
          let (first, rest, p, q, names, got, put) =
            use_released-ok pool pool.status.released_cluster_ips w (rw full at e1) in
          inr (q, (pool, first, rest, p, found, full, names, got, put))
      by_pool pool found e1 (inr more) =
          let (p, address, v, q, picked, created, put) = use_next-ok c pool w (rw more at e1) in
          inl (p, q, (pool, address, v, found, more, picked, created, put))
