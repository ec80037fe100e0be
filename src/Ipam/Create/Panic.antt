-- ===== src/Ipam/Create/Panic.antt =====
-- When an allocation panics.
use kloudstack.Base.{◌≡◌, refl, ◌≢◌, ◌↔◌, inl, inr, true, none, some, List, [], ◌∷◌, Bool-cases}
use kloudstack.Base.Text.{Text}
use kloudstack.Base.Result.{ok, panic, pure}
use kloudstack.Base.Result.Laws.{bind-safe}
use kloudstack.NetUtils.Ip.{pick_usable_ip}
use kloudstack.NetUtils.Ip.Pick.{pick_usable_ip-safe}
use kloudstack.Api.Network.{ClusterIp, ClusterIpPool}
use kloudstack.Ipam.Allocation.{counts_of, exhausted}
use kloudstack.Ipam.Finders.{Env, find_empty_cluster_ip_pool}
use kloudstack.Ipam.Create.{
  Claim, new_cluster_ip, moved_on, take_released, use_released, store_counts, create_at, use_next,
  allocate, create_cluster_ip,
}

-- The client's own calls do not panic.
pub record NeverPanics {W : Type 0} (env : Env W) : Type 0 where
  pub gets : (namespace name : Text) (w : W) → env.cluster_ips.get namespace name w ≢ panic
  pub creates : (o : ClusterIp) (w : W) → (env.cluster_ips.create o w).0 ≢ panic
  pub stores : (q : ClusterIpPool) (w : W) → (env.cluster_ip_pools.update_status q w).0 ≢ panic

module _ {W : Type 0} (env : Env W) (safe : NeverPanics env) where
  use_next_safe : (c : Claim) (pool : ClusterIpPool) (w : W) → (use_next env c pool w).0 ≢ panic
  unfolding use_next create_at store_counts
  use_next_safe c pool w =
      bind-safe (pick_usable_ip pool.spec.cidr (some (counts_of pool.status).next), w)
        (create_at env c pool)
        (pick_usable_ip-safe pool.spec.cidr (some (counts_of pool.status).next))
        (λ address v.
          bind-safe (env.cluster_ips.create (new_cluster_ip c pool address (env.now v)) v)
            (store_counts env pool) (safe.creates _ v)
            (λ cip u.
              bind-safe (env.cluster_ip_pools.update_status (moved_on pool) u)
                (λ p. pure (cip, some p)) (safe.stores _ u) (λ p x e. cc)))

  take_safe :
      (pool : ClusterIpPool) (first : Text) (rest : List Text) (w : W)
      → (use_released env pool (first ∷ rest) w).0 ≢ panic
  unfolding use_released take_released
  take_safe pool first rest w =
      bind-safe (env.cluster_ips.get [] first w, w) (take_released env pool rest)
        (safe.gets [] first w)
        (λ cip v.
          bind-safe
            (env.cluster_ip_pools.update_status
              (record pool { status = record (pool.status) { released_cluster_ips = rest } }) v)
            (λ _. pure (cip, none)) (safe.stores _ v) (λ p x e. cc))

  use_released-panic :
      (pool : ClusterIpPool) (names : List Text) (w : W)
      → ((use_released env pool names w).0 ≡ panic) ↔ (names ≡ [])
  unfolding use_released
  use_released-panic pool [] w = ((λ e. refl), (λ e. refl))
  use_released-panic pool (first ∷ rest) w =
      ((λ e. absurd (take_safe pool first rest w e)), (λ e. absurd (cc)))

  -- With a pool that has free addresses by its count, and a client whose own calls do not panic, the
  -- call panics exactly if the pool's index is at its end and its list of released cluster IPs is
  -- empty.
  pub create_cluster_ip-panic :
      (c : Claim) (w : W) {pool : ClusterIpPool}
      → find_empty_cluster_ip_pool env c.family w ≡ (ok pool, w)
      → ((create_cluster_ip env c w).0 ≡ panic)
        ↔ ((exhausted (counts_of pool.status) ≡ true) × (pool.status.released_cluster_ips ≡ []))
  unfolding create_cluster_ip allocate
  create_cluster_ip-panic c w {pool} found =
      rw found (elim (Bool-cases (exhausted (counts_of pool.status))) [
        | inl full ↦
            let (there, back) = use_released-panic pool pool.status.released_cluster_ips w in
            rw full ((λ e. (refl, there e)), (λ h. back h.1))
        | inr more ↦ rw more ((λ e. absurd (use_next_safe c pool w e)), (λ h. absurd (cc)))
      ])
