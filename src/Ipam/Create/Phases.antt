-- ===== src/Ipam/Create/Phases.antt =====
-- `createClusterIP` of pkg/ipam/ipam.go as its calls of the client, one at a time, for requests that
-- are served at the same time.
pub mod Alone
pub mod Versions
pub mod Moves
pub mod Stores
pub mod System
pub mod Names
pub mod Race
pub mod Addresses
pub mod Owner
use kloudstack.Base.{ℕ, zero, suc, Option, none, some, List, [], ◌∷◌, if◌then◌else◌}
use kloudstack.Base.Text.{Text}
use kloudstack.Base.Result.{Result, ok, err, panic, bind}
use kloudstack.NetUtils.Ip.{pick_usable_ip}
use kloudstack.Api.Network.{ClusterIp, ClusterIpPool}
use kloudstack.Ipam.Allocation.{counts_of, exhausted}
use kloudstack.Ipam.Finders.{Env, find_empty_cluster_ip_pool}
use kloudstack.Ipam.Create.{
  Claim, new_cluster_ip, moved_on, take_released, use_released, store_counts, create_at, use_next,
  allocate, create_cluster_ip,
}

-- Where a call stands, with what it has read: before the pools are listed, with a pool, with a
-- released cluster IP that was read, with a cluster IP that was created, and at its end.
pub data Phase : Type 0 where
  start : Claim → Phase
  holding : Claim → ClusterIpPool → Phase
  taking : ClusterIpPool → List Text → ClusterIp → Phase
  made : ClusterIpPool → ClusterIp → Phase
  ended : Result (ClusterIp × Option ClusterIpPool) → Phase

-- After a call of the client: an error or a panic ends the call.
abbrev pub then_to : {W A : Type 0} → (A → Phase) → Result A × W → Phase × W
then_to k (ok a, w) = (k a, w)
then_to k (err e, w) = (ended (err e), w)
then_to k (panic, w) = (ended panic, w)

module _ {W : Type 0} (env : Env W) where
  pub first_released : ClusterIpPool → List Text → W → Phase × W
  first_released pool [] w = (ended panic, w)
  first_released pool (first ∷ rest) w =
      then_to (taking pool rest) (env.cluster_ips.get [] first w, w)

  pub make_at : Claim → ClusterIpPool → Result Text → W → Phase × W
  make_at c pool (ok address) w =
      then_to (made pool) (env.cluster_ips.create (new_cluster_ip c pool address (env.now w)) w)
  make_at c pool (err e) w = (ended (err e), w)
  make_at c pool panic w = (ended panic, w)

  -- The call's next access to the server.
  unfoldable pub step : Phase → W → Phase × W
  unfolding first_released make_at
  step (start c) w = then_to (holding c) (find_empty_cluster_ip_pool env c.family w)
  step (holding c pool) w =
      if exhausted (counts_of pool.status)
      then first_released pool pool.status.released_cluster_ips w
      else make_at c pool (pick_usable_ip pool.spec.cidr (some (counts_of pool.status).next)) w
  step (taking pool rest cip) w =
      then_to (λ _. ended (ok (cip, none)))
        (env.cluster_ip_pools.update_status
          (record pool { status = record (pool.status) { released_cluster_ips = rest } }) w)
  step (made pool cip) w =
      then_to (λ p. ended (ok (cip, some p))) (env.cluster_ip_pools.update_status (moved_on pool) w)
  step (ended r) w = (ended r, w)

  -- With nothing in between.
  unfoldable pub advance : ℕ → Phase × W → Phase × W
  advance zero s = s
  advance (suc k) (p, w) = advance k (step p w)
