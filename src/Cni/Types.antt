-- ===== src/Cni/Types.antt =====
-- What pkg/daemons/ovn-cni-server/server.go and the plugin of cni/ovn/main.go read and answer.
use kloudstack.Base.{ℕ, Option, List, []}
use kloudstack.Base.Text.{Text}
use kloudstack.NetUtils.Veth.{CniInterface}

-- skel.CmdArgs
pub record CmdArgs : Type 0 where
  pub netns : Text
  pub if_name : Text
  pub args : Text
  pub stdin : Text

-- `CniKubeArgs` and `PluginConf`
pub record CniKubeArgs : Type 0 where
  pub pod_name : Text
  pub pod_namespace : Text

pub record PluginConf : Type 0 where
  pub logical_switch : Text

-- net.IPNet: an address with the length of its mask; `none` is an address that does not parse.
pub record IpAddress : Type 0 where
  pub address : Option ℕ
  pub ones : ℕ
  pub bits : ℕ

-- current.IPConfig: the index of its interface, and the address.
pub record IpConfig : Type 0 where
  pub interface : Option ℕ
  pub address : IpAddress

-- current.Result
pub record CniResult : Type 0 where
  pub cni_version : Text
  pub interfaces : List CniInterface
  pub ips : List IpConfig

-- `CNIRequest` and `CNIResponse`; the error is empty for success.
pub record CniRequest : Type 0 where
  pub cmd : Text
  pub cmd_args : CmdArgs

pub record CniResponse : Type 0 where
  pub result : CniResult
  pub error : Text

abbrev pub no_result : CniResult
no_result = record { cni_version = []; interfaces = []; ips = [] }

abbrev pub error_response : Text → CniResponse
error_response message = record { result = no_result; error = message }
