-- ===== src/Ipam/Create.antt =====
-- `FindOrCreateClusterIP` and `createClusterIP` of pkg/ipam/ipam.go.
pub mod Laws
pub mod Again
pub mod Distinct
pub mod Panic
pub mod Phases
pub mod Orphan
pub mod Served
use kloudstack.Base.{ℕ, Bool, true, false, Option, none, some, List, [], ◌∷◌, ◌++◌, if◌then◌else◌}
use kloudstack.Base.Int.{ℤ, pos}
use kloudstack.Base.Text.{Text, lit, text_eq, replace_all}
use kloudstack.Base.Result.{Action, pure, crash, reads, ◌>>=◌}
use kloudstack.NetUtils.Ip.{pick_usable_ip}
use kloudstack.NetUtils.Mac.{generate_veth_mac}
use kloudstack.Api.Core.{Pod, lookup_or_empty, named}
use kloudstack.Api.Network.{ClusterIp, ClusterIpPool}
use kloudstack.Api.Kube.{Selector}
use kloudstack.Ipam.Allocation.{counts_of, exhausted, counted, stored}
use kloudstack.Ipam.Finders.{Env, find_empty_cluster_ip_pool}

-- `IPAMRequest`
pub record IpamRequest : Type 0 where
  pub namespace : Text
  pub name : Text
  pub interface : Text
  pub mac : Option Text
  pub family : Text

-- The owner of an address: the KubeVirt machine of the pod, or the pod itself.
unfoldable pub resource_of : IpamRequest → Pod → Text
resource_of r pod =
    let vm = lookup_or_empty (lit "vm.kubevirt.io/name") pod.meta.labels in
    r.namespace ++ (b'/' ∷ (if text_eq vm [] then r.name else vm))

-- What is asked for, once the owner and the MAC are known.
pub record Claim : Type 0 where
  pub interface : Text
  pub mac : Text
  pub family : Text
  pub resource : Text

-- The name of the cluster IP that is created for a claim.
abbrev pub cluster_ip_name : Claim → Text
cluster_ip_name c = replace_all b'/' (lit "-") c.resource ++ (b'-' ∷ c.interface)

-- The cluster IP that is created for a claim.
unfoldable pub new_cluster_ip : Claim → ClusterIpPool → Text → ℕ → ClusterIp
new_cluster_ip c pool address now = record {
  meta = named [] (cluster_ip_name c);
  spec = record {
    cluster_ip_pool = pool.meta.name;
    interface = c.interface;
    address = address;
    mac = c.mac;
    family = c.family;
    resource = c.resource;
  };
  status = record {
    conditions = [];
    history =
        record { mac = []; interface = []; resource = []; allocated_at = now; released_at = 0 }
        ∷ [];
  };
}

-- The cluster IPs of an owner's interface.
abbrev pub claim_selector : Text → Text → Text → Selector
claim_selector family interface resource =
    (lit "spec.family", family)
    ∷ (lit "spec.containerInterface", interface)
    ∷ (lit "spec.resource", resource)
    ∷ []

-- The pool's status with its counts moved on.
unfoldable pub moved_on : ClusterIpPool → ClusterIpPool
moved_on pool = record pool { status = stored (counted (counts_of pool.status)) pool.status }

module _ {W : Type 0} (env : Env W) where
  -- What is stored when the first released cluster IP is taken out.
  take_released :
      ClusterIpPool → List Text → ClusterIp → Action W (ClusterIp × Option ClusterIpPool)
  take_released pool rest cluster_ip = do
    _ ←
        env.cluster_ip_pools.update_status
          (record pool { status = record (pool.status) { released_cluster_ips = rest } })
    pure (cluster_ip, none)

  -- The first released cluster IP is taken, with no pool returned; reading the first of none is
  -- an index out of range.
  use_released : ClusterIpPool → List Text → Action W (ClusterIp × Option ClusterIpPool)
  unfolding take_released
  use_released pool [] = crash
  use_released pool (first ∷ rest) =
      reads (env.cluster_ips.get [] first) >>= take_released pool rest

  store_counts : ClusterIpPool → ClusterIp → Action W (ClusterIp × Option ClusterIpPool)
  unfolding moved_on
  store_counts pool cluster_ip = do
    pool' ← env.cluster_ip_pools.update_status (moved_on pool)
    pure (cluster_ip, some pool')

  create_at : Claim → ClusterIpPool → Text → Action W (ClusterIp × Option ClusterIpPool)
  unfolding store_counts
  create_at c pool address w =
      (env.cluster_ips.create (new_cluster_ip c pool address (env.now w)) >>= store_counts pool) w

  -- A new address at the pool's next index.
  use_next : Claim → ClusterIpPool → Action W (ClusterIp × Option ClusterIpPool)
  unfolding create_at
  use_next c pool =
      reads (λ _. pick_usable_ip pool.spec.cidr (some (counts_of pool.status).next))
      >>= create_at c pool

  allocate : Claim → ClusterIpPool → Action W (ClusterIp × Option ClusterIpPool)
  unfolding use_released use_next
  allocate c pool =
      if exhausted (counts_of pool.status)
      then use_released pool pool.status.released_cluster_ips
      else use_next c pool

  -- `createClusterIP`
  unfoldable pub create_cluster_ip : Claim → Action W (ClusterIp × Option ClusterIpPool)
  unfolding allocate
  create_cluster_ip c = find_empty_cluster_ip_pool env c.family >>= allocate c

  -- The first cluster IP that was found, with its pool, or a new one.
  existing_or_new : Claim → List ClusterIp → Action W (ClusterIp × Option ClusterIpPool)
  existing_or_new c [] = create_cluster_ip c
  existing_or_new c (first ∷ _) = do
    pool ← reads (env.cluster_ip_pools.get [] first.spec.cluster_ip_pool)
    pure (first, some pool)

  unfoldable pub claim_of : IpamRequest → Pod → Claim
  claim_of r pod =
      let resource = resource_of r pod in
      let prefix = if text_eq env.mac_prefix [] then lit "02" else env.mac_prefix in
      record {
        interface = r.interface;
        mac = generate_veth_mac resource prefix;
        family = r.family;
        resource = resource;
      }

  find_or_create_for : IpamRequest → Pod → Action W (ClusterIp × Option ClusterIpPool)
  unfolding existing_or_new
  find_or_create_for r pod =
      reads
        (env.cluster_ips.list (claim_selector r.family r.interface (resource_of r pod)) (pos 1000))
      >>= existing_or_new (claim_of r pod)

  -- `FindOrCreateClusterIP`
  unfoldable pub find_or_create_cluster_ip :
      IpamRequest → Action W (ClusterIp × Option ClusterIpPool)
  unfolding find_or_create_for
  find_or_create_cluster_ip r = reads (env.pods.get r.namespace r.name) >>= find_or_create_for r
