-- ===== src/Api/Network.antt =====
-- api/network/v1alpha1: cluster IPs, their pools and logical switches. A time is a number, and a
-- count is the text that the API stores.
use kloudstack.Base.{ℕ, Bool, List}
use kloudstack.Base.Text.{Text}
use kloudstack.Api.Core.{Meta}

-- metav1.Condition
pub record Condition : Type 0 where
  pub kind : Text
  pub status : Bool
  pub reason : Text
  pub message : Text

pub record ClusterIpSpec : Type 0 where
  pub cluster_ip_pool : Text
  pub interface : Text
  pub address : Text
  pub mac : Text
  pub family : Text
  pub resource : Text

-- 0 is the zero time.
pub record ClusterIpHistory : Type 0 where
  pub mac : Text
  pub interface : Text
  pub resource : Text
  pub allocated_at : ℕ
  pub released_at : ℕ

pub record ClusterIpStatus : Type 0 where
  pub conditions : List Condition
  pub history : List ClusterIpHistory

pub record ClusterIp : Type 0 where
  pub meta : Meta
  pub spec : ClusterIpSpec
  pub status : ClusterIpStatus

pub record ClusterIpPoolSpec : Type 0 where
  pub ip_family : Text
  pub cidr : Text
  pub gateway : Text

pub record ClusterIpPoolStatus : Type 0 where
  pub conditions : List Condition
  pub total_ips : Text
  pub allocated_ips : Text
  pub free_ips : Text
  pub next_index : Text
  pub released_cluster_ips : List Text

pub record ClusterIpPool : Type 0 where
  pub meta : Meta
  pub spec : ClusterIpPoolSpec
  pub status : ClusterIpPoolStatus

pub record LogicalSwitch : Type 0 where
  pub meta : Meta
