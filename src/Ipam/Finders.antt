-- ===== src/Ipam/Finders.antt =====
-- The lookups of pkg/ipam/ipam.go over the Kubernetes client, and the environment that package
-- ipam runs in.
pub mod Laws
use kloudstack.Base.{
  ℕ, Bool, true, false, Option, none, some, List, [], ◌∷◌, ◌++◌, find, if◌then◌else◌,
}
use kloudstack.Base.Int.{ℤ, pos, ltb_ℤ}
use kloudstack.Base.Text.{Text, lit, quoted}
use kloudstack.Base.Result.{
  Reason, not_found, Error, failure, Action, pure, fail, reads, ◌>>=◌, or_fail,
}
use kloudstack.Helpers.{string_to_big_int}
use kloudstack.Api.Core.{Pod}
use kloudstack.Api.Network.{ClusterIp, ClusterIpPool}
use kloudstack.Api.Kube.{Kube, Selector}

-- The client, the clock and the variable MAC_PREFIX.
pub record Env (W : Type 0) : Type 0 where
  pub pods : Kube W Pod
  pub cluster_ips : Kube W ClusterIp
  pub cluster_ip_pools : Kube W ClusterIpPool
  pub now : W → ℕ
  pub mac_prefix : Text

pub has_free : ClusterIpPool → Bool
has_free pool = ltb_ℤ (pos 0) (string_to_big_int pool.status.free_ips)

-- `errors.NewNotFound` for the resource clusterippools.
pub no_free_pool : Text → Error
no_free_pool family = record {
  reason = not_found;
  message =
      lit "clusterippools.network.kloudstack.ir "
      ++ (quoted (lit "no free " ++ (family ++ lit " pool")) ++ lit " not found");
}

abbrev head? : {A : Type 0} → List A → Option A
head? [] = none
head? (x ∷ xs) = some x

module _ {W : Type 0} (env : Env W) where
  -- `findEmptyClusterIPPool`
  unfoldable pub find_empty_cluster_ip_pool : Text → Action W ClusterIpPool
  unfolding has_free no_free_pool
  find_empty_cluster_ip_pool family = do
    pools ← reads (env.cluster_ip_pools.list ((lit "spec.ipFamily", family) ∷ []) (pos 10000))
    or_fail (find has_free pools) (no_free_pool family)

  -- `FindClusterIPbyFamilyandMAC`
  unfoldable pub find_cluster_ip_by_family_and_mac : Text → Text → Action W ClusterIp
  find_cluster_ip_by_family_and_mac mac family = do
    items ←
        reads
          (env.cluster_ips.list ((lit "spec.family", family) ∷ (lit "spec.mac", mac) ∷ []) (pos 1))
    or_fail (head? items) (failure (lit "not found"))

  -- `FindClusterIPPoolByName`
  unfoldable pub find_cluster_ip_pool_by_name : Text → Action W ClusterIpPool
  find_cluster_ip_pool_by_name name = reads (env.cluster_ip_pools.get [] name)

  -- `FindReleasedClusterIP`
  unfoldable pub find_released_cluster_ip : Text → Action W ClusterIp
  find_released_cluster_ip family = do
    items ←
        reads
          (env.cluster_ips.list ((lit "spec.family", family) ∷ (lit "spec.mac", []) ∷ []) (pos 1))
    or_fail (head? items) (failure (lit "No released ClusterIP " ++ (family ++ lit " found.")))
