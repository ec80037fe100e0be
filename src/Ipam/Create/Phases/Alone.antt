-- ===== src/Ipam/Create/Phases/Alone.antt =====
-- A call of `createClusterIP` (pkg/ipam/ipam.go) that nothing comes between.
use kloudstack.Base.{
  ℕ, zero, suc, ◌≡◌, refl, Option, none, some, List, [], ◌∷◌, inl, inr, Bool-cases,
}
use kloudstack.Base.Text.{Text}
use kloudstack.Base.Result.{Result, ok, err, panic, bind}
use kloudstack.NetUtils.Ip.{pick_usable_ip}
use kloudstack.Api.Network.{ClusterIp, ClusterIpPool}
use kloudstack.Ipam.Allocation.{counts_of, exhausted}
use kloudstack.Ipam.Finders.{Env, find_empty_cluster_ip_pool}
use kloudstack.Ipam.Create.{
  Claim, new_cluster_ip, moved_on, take_released, use_released, store_counts, create_at, use_next,
  allocate, create_cluster_ip,
}
use kloudstack.Ipam.Create.Phases.{
  Phase, start, holding, taking, made, ended, then_to, first_released, make_at, step, advance,
}

module _ {W : Type 0} (env : Env W) where
  -- What has ended stays as it is.
  abbrev as_ended : Result (ClusterIp × Option ClusterIpPool) × W → Phase × W
  as_ended (r, w) = (ended r, w)

  taken_alone :
      (pool : ClusterIpPool) (rest : List Text) (r : Result ClusterIp) (w : W)
      → advance env 1 (then_to (taking pool rest) (r, w))
        ≡ as_ended (bind (r, w) (take_released env pool rest))
  unfolding advance step take_released
  taken_alone pool rest (ok cip) w = stored (env.cluster_ip_pools.update_status _ w)
    where
      stored :
          (m : Result ClusterIpPool × W)
          → then_to (λ _. ended (ok (cip, none))) m ≡ as_ended (bind m (λ _ v. (ok (cip, none), v)))
      stored (ok p, v) = refl
      stored (err e, v) = refl
      stored (panic, v) = refl
  taken_alone pool rest (err e) w = refl
  taken_alone pool rest panic w = refl

  made_alone :
      (pool : ClusterIpPool) (m : Result ClusterIp × W)
      → advance env 1 (then_to (made pool) m) ≡ as_ended (bind m (store_counts env pool))
  unfolding advance step store_counts
  made_alone pool (ok cip, w) = stored (env.cluster_ip_pools.update_status (moved_on pool) w)
    where
      stored :
          (m : Result ClusterIpPool × W)
          → then_to (λ p. ended (ok (cip, some p))) m
            ≡ as_ended (bind m (λ p v. (ok (cip, some p), v)))
      stored (ok p, v) = refl
      stored (err e, v) = refl
      stored (panic, v) = refl
  made_alone pool (err e, w) = refl
  made_alone pool (panic, w) = refl

  ended_stays :
      (k : ℕ) (r : Result (ClusterIp × Option ClusterIpPool)) (w : W)
      → advance env k (ended r, w) ≡ (ended r, w)
  unfolding advance step
  ended_stays zero r w = refl
  ended_stays (suc k) r w = ended_stays k r w

  released_alone :
      (pool : ClusterIpPool) (names : List Text) (w : W)
      → advance env 1 (first_released env pool names w) ≡ as_ended (use_released env pool names w)
  unfolding use_released first_released
  released_alone pool [] w = ended_stays 1 panic w
  released_alone pool (first ∷ rest) w = taken_alone pool rest (env.cluster_ips.get [] first w) w

  next_alone :
      (c : Claim) (pool : ClusterIpPool) (r : Result Text) (w : W)
      → advance env 1 (make_at env c pool r w) ≡ as_ended (bind (r, w) (create_at env c pool))
  unfolding make_at create_at
  next_alone c pool (ok address) w =
      made_alone pool (env.cluster_ips.create (new_cluster_ip c pool address (env.now w)) w)
  next_alone c pool (err e) w = ended_stays 1 (err e) w
  next_alone c pool panic w = ended_stays 1 panic w

  allocated_alone :
      (c : Claim) (m : Result ClusterIpPool × W)
      → advance env 2 (then_to (holding c) m) ≡ as_ended (bind m (allocate env c))
  allocated_alone c (ok pool, w) = elim (Bool-cases (exhausted (counts_of pool.status))) [
    | inl full ↦
        unfold step allocate advance in
        rw full (released_alone pool pool.status.released_cluster_ips w)
    | inr more ↦
        unfold step allocate advance use_next in
        rw more
          (next_alone c pool (pick_usable_ip pool.spec.cidr (some (counts_of pool.status).next)) w)
  ]
  allocated_alone c (err e, w) = ended_stays 2 (err e) w
  allocated_alone c (panic, w) = ended_stays 2 panic w

  -- With nothing in between, three accesses are the whole call: the same result, and the same world.
  pub advance-create_cluster_ip :
      (c : Claim) (w : W)
      → advance env 3 (start c, w)
        ≡ (ended (create_cluster_ip env c w).0, (create_cluster_ip env c w).1)
  unfolding create_cluster_ip
  advance-create_cluster_ip c w =
      let all = allocated_alone c (find_empty_cluster_ip_pool env c.family w) in
      unfold advance step in all
