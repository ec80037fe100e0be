-- ===== src/Cni/Laws.antt =====
-- What the two commands do to the switches.
use kloudstack.Base.{◌≡◌, sym, ap, ◌∙◌, List, [], ◌∷◌, ◌++◌, arith}
use mathlib.Core.Path.{subst}
use kloudstack.Base.Text.Laws.{text_eq_refl}
use kloudstack.Base.Text.{Text, lit, quoted}
use kloudstack.Base.Result.{Result, ok, err, panic, pure, fail, bind, bind-ok, attempted}
use kloudstack.Base.Result.Laws.{reads-ok, returned}
use kloudstack.NetUtils.Veth.{CniInterface, setup_veth}
use kloudstack.Helpers.{extract_vm_name}
use kloudstack.Api.Core.{StringMap}
use kloudstack.Ovs.{add_port, del_port}
use kloudstack.Ovn.{is_switch, create_logical_port}
use kloudstack.Ovn.Laws.{delete_logical_port-missing}
use kloudstack.Cni.Types.{CmdArgs, CniKubeArgs, PluginConf, CniResult, CniResponse, error_response}
use kloudstack.Cni.{
  Server, parse_config, iface_id_of, Attachment, responded, attachment, undo_unless, plug,
  add_result, plug_both, attach, add_for, add_with, handle_add, del_switch, del_for, del_with,
  handle_del,
}

abbrev pub port_options : CniKubeArgs → List StringMap
port_options k =
    ((lit "namespace", k.pod_namespace)
      ∷ (lit "pod", k.pod_name)
      ∷ (lit "vmName", extract_vm_name k.pod_name)
      ∷ [])
    ∷ []

module _ {W OvsOp NbOp : Type 0} (s : Server W OvsOp NbOp) where
  undo_ok :
      (iface_id : Text) (m : Result (Unit {0}) × W) {w' : W}
      → bind (attempted m) (undo_unless s iface_id) ≡ (ok tt, w')
      → m ≡ (ok tt, w')
  unfolding undo_unless
  undo_ok iface_id (ok tt, v) e = ground arith
  undo_ok iface_id (err x, v) e = absurd (undone (del_port s.ovs_agent (lit "br-int") iface_id v) e)
    where
      undone :
          (m : Result (Unit {0}) × W) {w' : W}
          → bind (bind (attempted m) (λ _. pure tt)) (λ _. fail {A = Unit {0}} x) ≡ (ok tt, w')
          → ⊥
      undone (ok a, u) e = cc
      undone (err a, u) e = cc
      undone (panic, u) e = cc
  undo_ok iface_id (panic, v) e = absurd (cc)

  answered_ok :
      (m : Result CniResult × W) (resp : CniResponse) (cont : CniInterface)
      (more : List CniInterface) {w' : W}
      → responded m ≡ (ok resp, w')
      → resp.result.interfaces ≡ cont ∷ more
      → (r : CniResult) × (m ≡ (ok r, w')) × (r.interfaces ≡ cont ∷ more) × (resp.error ≡ [])
  answered_ok (ok r, v) resp cont more e i =
      let (same, world) = returned e in
      (
        r,
        ap (λ (u : W). (ok r, u)) world,
        ap (λ (c : CniResponse). c.result.interfaces) same ∙ i,
        sym (ap (λ (c : CniResponse). c.error) same),
      )
  answered_ok (err x, v) resp cont more e i =
      let (same, _) = returned e in
      let none_left : [] ≡ cont ∷ more = ap (λ (c : CniResponse). c.result.interfaces) same ∙ i in
      absurd (cc)
  answered_ok (panic, v) resp cont more e i = absurd (cc)

  -- A pod is attached in full: the pair of devices is set up, the host's end is added to the bridge
  -- br-int, and last the logical port is created on the attachment's switch, with the container's
  -- MAC, under the interface's id that the port of the bridge has.
  abbrev pub Attached : CmdArgs → CniKubeArgs → Attachment → CniInterface → W → W → Type 0
  Attached req k att cont v w' =
      (host : CniInterface) × (v2 : W) × (v3 : W) × (setup_veth s.links req.netns req.if_name
          att.mac 1500 v
        ≡ (ok (host, cont), v2))
      × (add_port s.ovs_agent (lit "br-int") host.name (lit "system") (iface_id_of k req.if_name) v2
          ≡ (ok tt, v3))
      × (create_logical_port s.ovn_agent att.switch (iface_id_of k req.if_name) cont.mac
            (port_options k) v3
          ≡ (ok tt, w'))

  plug_both_ok :
      (k : CniKubeArgs) (if_name : Text) (att : Attachment) (host cont : CniInterface) (v2 : W)
      {r : CniResult} {w' : W}
      → plug_both s k if_name att (host, cont) v2 ≡ (ok r, w')
      → (v3 : W) × (r.interfaces ≡ cont ∷ [])
        × (add_port s.ovs_agent (lit "br-int") host.name (lit "system") (iface_id_of k if_name) v2
            ≡ (ok tt, v3))
        × (create_logical_port s.ovn_agent att.switch
              (iface_id_of k if_name)
              cont.mac
              (port_options k)
              v3
            ≡ (ok tt, w'))
  unfolding plug_both plug
  plug_both_ok k if_name att host cont v2 {w' = w'} e =
      let id = iface_id_of k if_name in
      let done = λ (_ : Unit {0}). pure (add_result s if_name att.address cont) in
      let (_, v3, ported, e1) =
        bind-ok (add_port s.ovs_agent (lit "br-int") host.name (lit "system") id v2)
          (λ _ v. bind (plug s k id att.switch cont v) done) e in
      let (_, v4, plugged, e2) = bind-ok (plug s k id att.switch cont v3) done e1 in
      let (same, world) = returned e2 in
      let port = create_logical_port s.ovn_agent att.switch id cont.mac (port_options k) v3 in
      (
        v3,
        sym (ap (λ (x : CniResult). x.interfaces) same),
        ported,
        subst (λ (v : W). port ≡ (ok tt, v)) world (undo_ok id port plugged),
      )

  attach_ok :
      (req : CmdArgs) (k : CniKubeArgs) (att : Attachment) (v : W) (cont : CniInterface)
      (more : List CniInterface) {r : CniResult} {w' : W}
      → attach s req k att v ≡ (ok r, w')
      → r.interfaces ≡ cont ∷ more
      → Attached req k att cont v w'
  unfolding attach
  attach_ok req k att v cont more {w' = w'} e shown =
      let ((host, cont'), v2, made, e1) =
        bind-ok (setup_veth s.links req.netns req.if_name att.mac 1500 v)
          (plug_both s k req.if_name att) e in
      let (v3, interfaces, ported, created) = plug_both_ok k req.if_name att host cont' v2 e1 in
      let alike : cont' ∷ [] ≡ cont ∷ more = sym interfaces ∙ shown in
      let own : cont' ≡ cont = ground arith in
      subst (λ (c : CniInterface). Attached req k att c v w') own
        (host, v2, v3, made, ported, created)

  -- An Add that is answered with an interface has no error: its configuration and its arguments were
  -- read, its address was found or made, and the pod is attached in full.
  pub handle_add-ok :
      (req : CmdArgs) (w : W) (resp : CniResponse) (cont : CniInterface) (more : List CniInterface)
      (w' : W)
      → handle_add s req w ≡ (ok resp, w')
      → resp.result.interfaces ≡ cont ∷ more
      → (conf : PluginConf) × (k : CniKubeArgs) × (att : Attachment) × (v : W) × (resp.error ≡ [])
        × (parse_config s.decoders req.stdin ≡ ok conf)
        × (s.decoders.load_args req.args ≡ ok k)
        × (attachment s k req.if_name conf.logical_switch w ≡ (ok att, v))
        × Attached req k att cont v w'
  unfolding handle_add add_with add_for
  handle_add-ok req w resp cont more w' e i =
      let (r, e0, shown, no_error) =
        answered_ok (bind (parse_config s.decoders req.stdin, w) (add_with s req)) resp cont more e
          i in
      let (conf, parsed, e1) = reads-ok (parse_config s.decoders req.stdin) w (add_with s req) e0 in
      let (k, loaded, e2) = reads-ok (s.decoders.load_args req.args) w (add_for s req conf) e1 in
      let (att, v, attached, e3) =
        bind-ok (attachment s k req.if_name conf.logical_switch w) (attach s req k) e2 in
      (
        conf,
        k,
        att,
        v,
        no_error,
        parsed,
        loaded,
        attached,
        attach_ok req k att v cont more e3 shown,
      )

  del_switch-public :
      (k : CniKubeArgs) (conf : PluginConf) → conf.logical_switch ≡ [] → del_switch s k conf ≡ []
  unfolding del_switch
  del_switch-public k conf e = rw (e, text_eq_refl [])

  -- A Del on the public network looks for the switch with the empty name, while Add has used
  -- "public": where there is no switch with the empty name, it always fails, and neither the logical
  -- port nor the port of the bridge is deleted.
  pub handle_del-public :
      (req : CmdArgs) (w : W) {conf : PluginConf} {k : CniKubeArgs}
      → s.decoders.load_args req.args ≡ ok k
      → parse_config s.decoders req.stdin ≡ ok conf
      → conf.logical_switch ≡ []
      → s.ovn_agent.where_cache_switches (is_switch []) w ≡ ok []
      → handle_del s req w
        ≡ (ok (error_response (lit "logical switch " ++ (quoted [] ++ lit " not found"))), w)
  unfolding handle_del del_with del_for
  handle_del-public req w {conf} {k} loaded parsed public no_switch = rw (
    loaded,
    parsed,
    del_switch-public k conf public,
    delete_logical_port-missing s.ovn_agent [] (iface_id_of k req.if_name) w no_switch,
  )
