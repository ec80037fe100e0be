-- ===== src/Ovs/Laws.antt =====
-- What the calls on the ports of a bridge transact.
use kloudstack.Base.{◌≡◌, none, some, List, [], ◌∷◌, ◌++◌, arith}
use kloudstack.Base.Text.{Text, lit, quoted}
use kloudstack.Base.Result.{Result, ok, err, panic, wrapped, pure, bind}
use kloudstack.Base.Result.Laws.{reads-ok, wrapped-ok}
use kloudstack.Ovs.{
  Bridge, insert_ports, OvsClient, committed, commit_all, insert_port, create_port_for, create_both,
  new_interface, new_port, add_port,
}

module _ {W Op : Type 0} (client : OvsClient W Op) where
  commit_ok :
      (m : Result (List Text) × W) {w' : W}
      → bind (wrapped (lit "transaction failed: ") m.0, m.1) (λ _. pure tt) ≡ (ok tt, w')
      → (replies : List Text) × (m ≡ (ok replies, w'))
  commit_ok (ok r, v) e = (r, ground arith)
  commit_ok (err x, v) e = absurd (cc)
  commit_ok (panic, v) e = absurd (cc)

  pub committed-ok :
      (ops : List Op) (w : W) {w' : W}
      → committed client ops w ≡ (ok tt, w')
      → (replies : List Text) × (client.transact ops w ≡ (ok replies, w'))
  unfolding committed
  committed-ok ops w e = commit_ok (client.transact ops w) e

  -- A port that is added without an error was added to a bridge that exists, by one transaction:
  -- the interface's creation, the port's creation, which names the interface, and the port's
  -- insertion into the bridge. The interface and the port both carry the interface's id.
  pub add_port-ok :
      (bridge_name port_name iface_type iface_id : Text) (w w' : W)
      → add_port client bridge_name port_name iface_type iface_id w ≡ (ok tt, w')
      → (bridge : Bridge) × (iface_op : List Op) × (port_op : List Op) × (mutate_ops : List Op)
        × (replies : List Text) × (client.get_bridge bridge_name w ≡ ok bridge)
        × (client.create_interface
              (record {
                uuid = (client.new_uuids w).0;
                name = port_name;
                kind = iface_type;
                external_ids = some ((lit "iface-id", iface_id) ∷ []);
                statistics = none;
              })
              w
            ≡ ok iface_op)
        × (client.create_port
              (record {
                uuid = (client.new_uuids w).1;
                name = port_name;
                interfaces = (client.new_uuids w).0 ∷ [];
                external_ids = (lit "iface-id", iface_id) ∷ [];
              })
              w
            ≡ ok port_op)
        × (client.mutate_ports bridge insert_ports ((client.new_uuids w).1 ∷ []) w ≡ ok mutate_ops)
        × (client.transact (iface_op ++ (port_op ++ mutate_ops)) w ≡ (ok replies, w'))
  unfolding add_port create_both create_port_for insert_port
  add_port-ok bridge_name port_name iface_type iface_id w w' e =
      let iface = new_interface client w port_name iface_type iface_id in
      let port = new_port client w port_name iface_id in
      let before = lit "failed to get bridge " ++ (quoted bridge_name ++ lit ": ") in
      let (bridge, got, e1) =
        reads-ok (wrapped before (client.get_bridge bridge_name w)) w
          (create_both client iface port) e in
      let (iface_op, made, e2) =
        reads-ok (wrapped (lit "failed to create interface: ") (client.create_interface iface w)) w
          (create_port_for client port bridge) e1 in
      let (port_op, created, e3) =
        reads-ok (wrapped (lit "failed to create port: ") (client.create_port port w)) w
          (insert_port client bridge port iface_op) e2 in
      let changed = client.mutate_ports bridge insert_ports (port.uuid ∷ []) w in
      let (mutate_ops, mutated, e4) =
        reads-ok (wrapped (lit "failed to prepare mutation: ") changed) w
          (commit_all client iface_op port_op) e3 in
      let (replies, done) = committed-ok (iface_op ++ (port_op ++ mutate_ops)) w e4 in
      (
        bridge,
        iface_op,
        port_op,
        mutate_ops,
        replies,
        wrapped-ok before _ got,
        wrapped-ok (lit "failed to create interface: ") _ made,
        wrapped-ok (lit "failed to create port: ") _ created,
        wrapped-ok (lit "failed to prepare mutation: ") changed mutated,
        done,
      )
