-- ===== src/Cni/Tests.antt =====
-- A server that writes down the names of what it does, on a private network; the creation of a
-- logical port can be made to fail.
mod Plugin
use kloudstack.Base.{◌⊎◌, ◌≡◌, refl, Bool, true, false, List, [], ◌∷◌, ◌++◌, filter, if◌then◌else◌}
use kloudstack.Base.Text.{Text, lit, text_eq, quoted}
use kloudstack.Base.Result.{Result, ok, err, failure}
use kloudstack.NetUtils.Veth.{CniInterface, Links, setup_veth}
use kloudstack.Api.Kube.{Kube}
use kloudstack.Ipam.Finders.{Env}
use kloudstack.Ovs.{OvsClient, add_port, del_port}
use kloudstack.Ovn.{NbLogicalSwitch, NbClient, create_logical_port}
use kloudstack.Cni.Types.{CmdArgs, CniKubeArgs, PluginConf, CniResponse, error_response}
use kloudstack.Cni.{
  plug_both, plug, undo_unless, Attachment, Server, parse_config, iface_id_of, Attachment,
  private_attachment, attachment, handle_add, handle_del,
}
use kloudstack.Cni.Failed.{Undone, plug_both-failed}
use kloudstack.Cni.Laws.{Attached, port_options, handle_add-ok, handle_del-public}

pub unused : {A : Type 0} → Result A
unused = err (failure (lit "not used"))

abbrev pub no_objects : {Obj : Type 0} → Kube (List Text) Obj
no_objects = record {
  get = λ namespace name w. unused;
  list = λ sel limit w. unused;
  create = λ o w. (unused, w);
  update = λ o w. (unused, w);
  update_status = λ o w. (unused, w);
  patch = λ o w. (unused, w);
  delete = λ namespace name w. (unused, w);
  delete_all_of = λ namespace sel w. (unused, w);
}

abbrev pub no_ipam : Env (List Text)
no_ipam = record {
  pods = no_objects;
  cluster_ips = no_objects;
  cluster_ip_pools = no_objects;
  now = λ w. 0;
  mac_prefix = [];
}

abbrev pub links : Links (List Text)
links = record {
  get_ns = λ path w. ok path;
  setup_veth_in = λ path name mtu mac w. (
    ok (record { host_name = lit "veth1"; container_name = name; container_mac = lit "02:aa" }),
    lit "veth" ∷ w,
  );
  link_exists_in = λ path name w. ok tt;
  link_set_up_in = λ path name w. (ok tt, w);
  hardware_addr = λ name w. ok (lit "02:bb");
}

abbrev pub ovs : OvsClient (List Text) Text
ovs = record {
  new_uuids = λ w. (lit "i", lit "p");
  get_bridge = λ name w. ok (record { uuid = lit "b"; name = name; ports = [] });
  ports_with = λ ids w.
      ok (record { uuid = lit "p"; name = lit "veth1"; interfaces = []; external_ids = ids } ∷ []);
  create_interface = λ iface w. ok (lit "interface" ∷ []);
  create_port = λ port w. ok (lit "port" ∷ []);
  mutate_ports = λ bridge how uuids w. ok [];
  delete_port = λ port w. ok (lit "no port" ∷ []);
  delete_interface = λ uuid w. ok [];
  transact = λ ops w. (ok [], ops ++ w);
}

abbrev pub switches : List NbLogicalSwitch
switches = record { uuid = lit "s"; name = lit "12/blue"; ports = [] } ∷ []

abbrev pub ovn : Bool → NbClient (List Text) Text
ovn fails = record {
  new_uuid = λ w. lit "u";
  where_cache_switches = λ test w. ok (filter test switches);
  where_cache_ports = λ test w. ok [];
  list_switches = λ w. ok switches;
  where_switches = λ test w. ok (filter test switches);
  create_switch = λ ls w. ok [];
  create_port = λ lsp w. if fails then err (failure (lit "no")) else ok (lit "logical port" ∷ []);
  mutate_ports = λ ls how uuids w. ok [];
  delete_port = λ lsp w. ok [];
  transact = λ ops w. (ok [], ops ++ w);
}

-- The standard input is the name of the switch.
abbrev pub server : Bool → Server (List Text) Text Text
server fails = record {
  decoders = record {
    unmarshal = λ stdin. ok (record { logical_switch = stdin });
    parse_prev_result = λ conf. ok tt;
    load_args = λ args. ok (record { pod_name = args; pod_namespace = lit "12" });
  };
  links = links;
  ovs_agent = ovs;
  ovn_agent = ovn fails;
  ipam = no_ipam;
  version = lit "1.1.0";
}

abbrev pub on_switch : Text → CmdArgs
on_switch switch = record {
  netns = lit "/ns";
  if_name = lit "eth1";
  args = lit "web";
  stdin = switch;
}

abbrev kube_args : CniKubeArgs
kube_args = record { pod_name = lit "web"; pod_namespace = lit "12" }

abbrev pub inside : CniInterface
inside = record { name = lit "eth1"; mac = lit "02:aa"; sandbox = lit "/ns" }

abbrev outside : CniInterface
outside = record { name = lit "veth1"; mac = lit "02:bb"; sandbox = [] }

abbrev pub added : CniResponse
added = record {
  result = record { cni_version = lit "1.1.0"; interfaces = inside ∷ []; ips = [] };
  error = [];
}

abbrev pub all_done : List Text
all_done = lit "logical port" ∷ lit "interface" ∷ lit "port" ∷ lit "veth" ∷ []

attached :
    attachment (server true) kube_args (lit "eth1") (lit "blue") []
    ≡ (ok (private_attachment kube_args (lit "eth1") (lit "blue")), [])
unfolding attachment text_eq
attached = refl

pub handled : handle_add (server false) (on_switch (lit "blue")) [] ≡ (ok added, all_done)
unfolding handle_add parse_config text_eq private_attachment setup_veth add_port create_logical_port
handled = refl

handle_add-ok_example :
    (conf : PluginConf) × (k : CniKubeArgs) × (att : Attachment) × (v : List Text) × (added.error
      ≡ [])
    × (parse_config (server false).decoders (lit "blue") ≡ ok conf)
    × ((server false).decoders.load_args (lit "web") ≡ ok k)
    × (attachment (server false) k (lit "eth1") conf.logical_switch [] ≡ (ok att, v))
    × Attached (server false) (on_switch (lit "blue")) k att inside v all_done
handle_add-ok_example =
    handle_add-ok (server false) (on_switch (lit "blue")) [] added inside [] all_done handled refl

parsed :
    (switch : Text)
    → parse_config (server true).decoders switch ≡ ok (record { logical_switch = switch })
unfolding parse_config
parsed switch = refl

made :
    (mac : Text)
    → setup_veth links (lit "/ns") (lit "eth1") mac 1500 []
      ≡ (ok (outside, inside), lit "veth" ∷ [])
unfolding setup_veth
made mac = refl

ported :
    (id : Text)
    → add_port ovs (lit "br-int") (lit "veth1") (lit "system") id (lit "veth" ∷ [])
      ≡ (ok tt, lit "interface" ∷ lit "port" ∷ lit "veth" ∷ [])
unfolding add_port
ported id = refl

failed :
    (id mac : Text)
    → create_logical_port
        (ovn true)
        (private_attachment kube_args (lit "eth1") (lit "blue")).switch
        id
        mac
        (port_options kube_args)
        (lit "interface" ∷ lit "port" ∷ lit "veth" ∷ [])
      ≡ (
        err (failure ((lit "failed to create logical port " ++ (id ++ lit ": ")) ++ lit "no")),
        lit "interface" ∷ lit "port" ∷ lit "veth" ∷ [],
      )
unfolding create_logical_port text_eq private_attachment
failed id mac = refl

undone :
    (id : Text)
    → del_port ovs (lit "br-int") id (lit "interface" ∷ lit "port" ∷ lit "veth" ∷ [])
      ≡ (ok tt, lit "no port" ∷ lit "interface" ∷ lit "port" ∷ lit "veth" ∷ [])
unfolding del_port
undone id = refl

abbrev blue : Attachment
blue = private_attachment kube_args (lit "eth1") (lit "blue")

not_plugged :
    plug_both (server true) kube_args (lit "eth1") blue (outside, inside) (lit "veth" ∷ []) ≡ (
      err (
          failure (
            (lit "failed to create logical port "
              ++ (iface_id_of kube_args (lit "eth1") ++ lit ": "))
            ++ lit "no")),
      lit "no port" ∷ lit "interface" ∷ lit "port" ∷ lit "veth" ∷ [],
    )
unfolding plug_both plug undo_unless add_port del_port create_logical_port text_eq
    private_attachment iface_id_of
not_plugged = refl

plug_both-failed_example :
    (add_port ovs
        (lit "br-int")
        (lit "veth1")
        (lit "system")
        (iface_id_of kube_args (lit "eth1"))
        (lit "veth" ∷ [])
      ≡ (
        err (
            failure (
              (lit "failed to create logical port "
                ++ (iface_id_of kube_args (lit "eth1") ++ lit ": "))
              ++ lit "no")),
        lit "no port" ∷ lit "interface" ∷ lit "port" ∷ lit "veth" ∷ [],
      ))
    ⊎ ((v : List Text) × (add_port ovs
            (lit "br-int")
            (lit "veth1")
            (lit "system")
            (iface_id_of kube_args (lit "eth1"))
            (lit "veth" ∷ [])
          ≡ (ok tt, v))
        × Undone
            (server true)
            kube_args
            (iface_id_of kube_args (lit "eth1"))
            blue.switch
            (lit "02:aa")
            v
            (failure (
              (lit "failed to create logical port "
                ++ (iface_id_of kube_args (lit "eth1") ++ lit ": "))
              ++ lit "no"))
            (lit "no port" ∷ lit "interface" ∷ lit "port" ∷ lit "veth" ∷ []))
plug_both-failed_example =
    plug_both-failed (server true) kube_args (lit "eth1") blue outside inside (lit "veth" ∷ [])
      (lit "no port" ∷ lit "interface" ∷ lit "port" ∷ lit "veth" ∷ [])
      (failure (
        (lit "failed to create logical port " ++ (iface_id_of kube_args (lit "eth1") ++ lit ": "))
        ++ lit "no"))
      not_plugged
