-- ===== src/Controllers/Network.antt =====
-- pkg/controllers/network: clusterip.go, clusterippool.go and logicalswitch.go.
pub mod Laws
mod Tests
use kloudstack.Base.{
  ℕ, Bool, true, false, Option, none, some, List, [], ◌∷◌, ◌++◌, ◌&&◌, if◌then◌else◌,
}
use kloudstack.Base.Text.{Text, lit, text_eq}
use kloudstack.Base.Decimal.{format_int}
use kloudstack.Base.Result.{Result, ok, err, panic, Action, pure, crash, reads, ◌>>=◌, logged}
use kloudstack.Net.{IpNet, parse_cidr}
use kloudstack.NetUtils.Ip.{count_usable_ips}
use kloudstack.Api.Network.{Condition, ClusterIp, ClusterIpPool, ClusterIpPoolStatus, LogicalSwitch}
use kloudstack.Api.Kube.{Kube}
use kloudstack.Ovn.{NbClient, create_logical_switch}

-- `meta.SetStatusCondition`, which is a library's, on the conditions.
abbrev pub SetCondition : Type 0
SetCondition = Condition → List Condition → List Condition

abbrev pub invalid_cidr : Text → Condition
invalid_cidr cidr = record {
  kind = lit "Ready";
  status = false;
  reason = lit "InvalidCIDR";
  message = lit "Invalid CIDR: invalid CIDR address: " ++ cidr;
}

-- The status with both counts set to the network's usable addresses.
unfoldable pub counted_status : IpNet → ClusterIpPoolStatus → ClusterIpPoolStatus
counted_status n st = record st {
  total_ips = format_int (count_usable_ips n);
  free_ips = format_int (count_usable_ips n);
}

module _ {W : Type 0} (pools : Kube W ClusterIpPool) (set_condition : SetCondition) where
  -- `reflect.DeepEqual` of two statuses that differ in the two counts at most.
  pub store_unless_same : ClusterIpPool → ClusterIpPoolStatus → Action W (Unit {0})
  store_unless_same pool st =
      if text_eq pool.status.total_ips st.total_ips && text_eq pool.status.free_ips st.free_ips
      then pure tt
      else logged (pools.update_status (record pool { status = st }))

  pub count_pool : ClusterIpPool → Option (ℕ × IpNet) → Action W (Unit {0})
  unfolding store_unless_same counted_status
  count_pool pool none = logged (
      pools.update_status (record pool {
        status = record (pool.status) {
          conditions = set_condition (invalid_cidr pool.spec.cidr) pool.status.conditions;
        };
      }))
  count_pool pool (some (_, n)) = store_unless_same pool (counted_status n pool.status)

  pub count_of : ClusterIpPool → Action W (Unit {0})
  unfolding count_pool
  count_of pool = count_pool pool (parse_cidr pool.spec.cidr)

  -- `OnAddClusterIPPool`
  unfoldable pub on_add_cluster_ip_pool : Text → Text → Bool → Action W (Unit {0})
  unfolding count_of
  on_add_cluster_ip_pool namespace name is_initial =
      if is_initial then pure tt else logged (reads (pools.get namespace name) >>= count_of)

module _ {W Op : Type 0} (switches : Kube W LogicalSwitch) (ovn_agent : NbClient W Op) where
  -- `OnAddLogicalSwitch`
  unfoldable pub on_add_logical_switch : Text → Text → Action W (Unit {0})
  on_add_logical_switch namespace name =
      logged (
        reads (switches.get namespace name) >>= λ _. create_logical_switch ovn_agent namespace name)

-- `OnAddClusterIP` logs its argument, of whichever type it is, and changes nothing.
unfoldable pub on_add_cluster_ip : {W : Type 0} → Option ClusterIp → Action W (Unit {0})
on_add_cluster_ip cluster_ip = pure tt
