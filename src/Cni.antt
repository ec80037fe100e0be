-- ===== src/Cni.antt =====
-- pkg/daemons/ovn-cni-server/server.go, over the agents for OVS and OVN and package ipam, and the
-- plugin of cni/ovn/main.go that calls it. How JSON and the CNI arguments are decoded, and what the
-- socket carries, are parameters.
pub mod Types
pub mod Daemon
pub mod Plugin
pub mod Laws
pub mod Failed
mod Tests
use kloudstack.Base.{ℕ, Bool, true, false, Option, none, some, List, [], ◌∷◌, ◌++◌, if◌then◌else◌}
use kloudstack.Base.Text.{Text, lit, text_eq}
use kloudstack.Base.Result.{
  Error, Result, ok, err, panic, failure, wrapped, and_then, Action, pure, fail, crash, reads, bind,
  ◌>>=◌, attempt, logged,
}
use kloudstack.Net.{IpNet, parse_cidr, parse_ip}
use kloudstack.NetUtils.Mac.{generate_veth_mac}
use kloudstack.NetUtils.Veth.{CniInterface, Links, setup_veth}
use kloudstack.Helpers.{extract_vm_name}
use kloudstack.Api.Core.{StringMap}
use kloudstack.Api.Network.{ClusterIp, ClusterIpPool}
use kloudstack.Ipam.Finders.{Env}
use kloudstack.Ipam.Create.{IpamRequest, find_or_create_cluster_ip}
use kloudstack.Ovs.{OvsClient, add_port, del_port}
use kloudstack.Ovn.{NbClient, create_logical_port, delete_logical_port}
use kloudstack.Cni.Types.{
  CmdArgs, CniKubeArgs, PluginConf, IpAddress, CniResult, CniRequest, CniResponse, no_result,
  error_response,
}

-- What decodes the request's parts.
pub record Decoders : Type 0 where
  pub unmarshal : Text → Result PluginConf
  pub parse_prev_result : PluginConf → Result (Unit {0})
  pub load_args : Text → Result CniKubeArgs

-- The agents that a server has, and `version.Current()`.
pub record Server (W OvsOp NbOp : Type 0) : Type 0 where
  pub decoders : Decoders
  pub links : Links W
  pub ovs_agent : OvsClient W OvsOp
  pub ovn_agent : NbClient W NbOp
  pub ipam : Env W
  pub version : Text

-- `parseConfig`
unfoldable pub parse_config : Decoders → Text → Result PluginConf
parse_config d stdin =
    and_then (wrapped (lit "failed to parse network configuration: ") (d.unmarshal stdin)) (λ conf.
      and_then (wrapped (lit "could not parse prevResult: ") (d.parse_prev_result conf))
        (λ _. ok conf))

-- `ifaceId`
unfoldable pub iface_id_of : CniKubeArgs → Text → Text
iface_id_of k if_name = k.pod_namespace ++ (b'_' ∷ k.pod_name ++ (b'_' ∷ if_name))

-- What a pod is attached with: its switch, MAC and address.
pub record Attachment : Type 0 where
  pub switch : Text
  pub mac : Text
  pub address : IpAddress

abbrev pub masked_as : Option (ℕ × IpNet) → ClusterIp → Result Attachment
masked_as none cluster_ip = panic
masked_as (some (_, n)) cluster_ip = ok (record {
  switch = lit "public";
  mac = cluster_ip.spec.mac;
  address = record { address = parse_ip cluster_ip.spec.address; ones = n.ones; bits = n.bits };
})

-- The public network: the pool that comes with the cluster IP is followed, and so is the network
-- of its CIDR, whose error is not looked at.
pub public_attachment : ClusterIp × Option ClusterIpPool → Result Attachment
public_attachment (cluster_ip, none) = panic
public_attachment (cluster_ip, some pool) = masked_as (parse_cidr pool.spec.cidr) cluster_ip

unfoldable pub private_attachment : CniKubeArgs → Text → Text → Attachment
private_attachment k if_name logical_switch = record {
  switch = k.pod_namespace ++ (b'/' ∷ logical_switch);
  mac = generate_veth_mac (extract_vm_name k.pod_name ++ (b'-' ∷ if_name)) (lit "02");
  address = record { address = parse_ip (lit "192.168.1.1"); ones = 24; bits = 32 };
}

-- An error of an action as a response.
abbrev pub responded : {W : Type 0} → Result CniResult × W → Result CniResponse × W
responded (ok r, w) = (ok (record { result = r; error = [] }), w)
responded (err e, w) = (ok (error_response e.message), w)
responded (panic, w) = (panic, w)

module _ {W OvsOp NbOp : Type 0} (s : Server W OvsOp NbOp) where
  pub read_public : ClusterIp × Option ClusterIpPool → Action W Attachment
  unfolding public_attachment
  read_public found = reads (λ _. public_attachment found)

  unfoldable pub attachment : CniKubeArgs → Text → Text → Action W Attachment
  unfolding read_public private_attachment
  attachment k if_name logical_switch =
      if text_eq logical_switch []
      then find_or_create_cluster_ip s.ipam (record {
        namespace = k.pod_namespace;
        name = k.pod_name;
        interface = if_name;
        mac = none;
        family = lit "v4";
      })
        >>= read_public
      else pure (private_attachment k if_name logical_switch)

  -- After the logical port was created, or not: a failure takes the port off the bridge again.
  pub undo_unless : Text → Result (Unit {0}) → Action W (Unit {0})
  undo_unless iface_id (ok _) = pure tt
  undo_unless iface_id (err e) =
      logged (del_port s.ovs_agent (lit "br-int") iface_id) >>= λ _. fail e
  undo_unless iface_id panic = crash

  pub plug : CniKubeArgs → Text → Text → CniInterface → Action W (Unit {0})
  unfolding undo_unless
  plug k iface_id switch cont =
      attempt (
        create_logical_port s.ovn_agent switch iface_id cont.mac (
          ((lit "namespace", k.pod_namespace)
            ∷ (lit "pod", k.pod_name)
            ∷ (lit "vmName", extract_vm_name k.pod_name)
            ∷ [])
          ∷ []))
      >>= undo_unless iface_id

  abbrev pub add_result : Text → IpAddress → CniInterface → CniResult
  add_result if_name address cont = record {
    cni_version = s.version;
    interfaces = cont ∷ [];
    ips =
        if text_eq if_name (lit "eth0")
        then record { interface = some 0; address = address } ∷ []
        else [];
  }

  pub plug_both : CniKubeArgs → Text → Attachment → CniInterface × CniInterface → Action W CniResult
  unfolding plug
  plug_both k if_name att (host, cont) =
      add_port s.ovs_agent (lit "br-int") host.name (lit "system") (iface_id_of k if_name) >>= λ _.
      (plug k (iface_id_of k if_name) att.switch cont >>= λ _.
      pure (add_result if_name att.address cont))

  pub attach : CmdArgs → CniKubeArgs → Attachment → Action W CniResult
  unfolding plug_both
  attach req k att =
      setup_veth s.links req.netns req.if_name att.mac 1500 >>= plug_both k req.if_name att

  pub add_for : CmdArgs → PluginConf → CniKubeArgs → Action W CniResult
  unfolding attachment attach
  add_for req conf k = attachment k req.if_name conf.logical_switch >>= attach req k

  pub add_with : CmdArgs → PluginConf → Action W CniResult
  unfolding add_for
  add_with req conf = reads (λ _. s.decoders.load_args req.args) >>= add_for req conf

  -- `handleAdd`
  unfoldable pub handle_add : CmdArgs → Action W CniResponse
  unfolding add_with
  handle_add req w = responded ((reads (λ _. parse_config s.decoders req.stdin) >>= add_with req) w)

  -- The switch that a port is deleted from: the empty name for the public network.
  unfoldable pub del_switch : CniKubeArgs → PluginConf → Text
  del_switch k conf =
      if text_eq conf.logical_switch [] then [] else k.pod_namespace ++ (b'/' ∷ conf.logical_switch)

  pub del_for : CmdArgs → CniKubeArgs → PluginConf → Action W CniResult
  unfolding del_switch
  del_for req k conf =
      delete_logical_port s.ovn_agent (del_switch k conf) (iface_id_of k req.if_name) >>= λ _.
      (del_port s.ovs_agent (lit "br-int") (iface_id_of k req.if_name) >>= λ _. pure no_result)

  pub del_with : CmdArgs → CniKubeArgs → Action W CniResult
  unfolding del_for
  del_with req k = reads (λ _. parse_config s.decoders req.stdin) >>= del_for req k

  -- `handleDel`
  unfoldable pub handle_del : CmdArgs → Action W CniResponse
  unfolding del_with
  handle_del req w = responded ((reads (λ _. s.decoders.load_args req.args) >>= del_with req) w)

  -- `handleConnection`, on the decoded request; `none` is no response.
  unfoldable pub handle_connection : Result CniRequest → Action W (Option CniResponse)
  handle_connection (err e) = pure none
  handle_connection panic = crash
  handle_connection (ok request) =
      (if text_eq request.cmd (lit "Add")
        then handle_add request.cmd_args
        else if text_eq request.cmd (lit "Del")
        then handle_del request.cmd_args
        else pure (error_response (lit "Unknown command")))
      >>= λ response. pure (some response)

module _ {W : Type 0} (call : CniRequest → Action W CniResponse) where
  pub answered : Result CniResponse → Action W CniResult
  answered (ok resp) = if text_eq resp.error [] then pure resp.result else fail (failure resp.error)
  answered (err e) = fail (failure (lit "kloudstack ovn cni daemon request failed: " ++ e.message))
  answered panic = crash

  -- `runOnDaemon` of the plugin, over the call of the daemon's socket.
  unfoldable pub run_on_daemon : Text → CmdArgs → Action W CniResult
  unfolding answered
  run_on_daemon cmd args = attempt (call (record { cmd = cmd; cmd_args = args })) >>= answered
