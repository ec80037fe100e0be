-- ===== src/Ovs/Delete.antt =====
-- What `DelPort` of pkg/ovs/ovs.go transacts.
use kloudstack.Base.{◌≡◌, refl, sym, ap, ◌∙◌, List, [], ◌∷◌, ◌++◌, append_assoc, append-nil, arith}
use kloudstack.Base.Text.{Text, lit}
use kloudstack.Base.Result.{Result, ok, err, panic, wrapped, and_then}
use kloudstack.Base.Result.Laws.{reads-ok, wrapped-ok}
use kloudstack.Ovs.{
  Bridge, Port, delete_ports, iface_ids, OvsClient, interface_ops, commit_both, delete_port_after,
  delete_first, delete_from, del_port,
}
use kloudstack.Ovs.Laws.{committed-ok}

module _ {W Op : Type 0} (client : OvsClient W Op) where
  -- The operations that delete these interfaces, one after the other.
  abbrev pub Deleted : W → List Text → List Op → Type 0
  Deleted w [] ops = ops ≡ []
  Deleted w (uuid ∷ uuids) ops =
      (first : List Op) × (rest : List Op) × (ops ≡ first ++ rest)
      × (client.delete_interface uuid w ≡ ok first)
      × Deleted w uuids rest

  and_then-ok :
      {A B : Type 0} (r : Result A) (f : A → Result B) {b : B}
      → and_then r f ≡ ok b
      → (a : A) × (r ≡ ok a) × (f a ≡ ok b)
  and_then-ok (ok a) f e = (a, refl, e)
  and_then-ok (err x) f e = absurd (cc)
  and_then-ok panic f e = absurd (cc)

  interface_ops-ok :
      (w : W) (uuids : List Text) (ops : List Op) {all : List Op}
      → interface_ops client w uuids ops ≡ ok all
      → (more : List Op) × (all ≡ ops ++ more) × Deleted w uuids more
  unfolding interface_ops
  interface_ops-ok w [] ops {all} e = ([], ground (arith, append-nil ops), refl)
  interface_ops-ok w (uuid ∷ uuids) ops {all} e =
      let before = lit "failed to prepare interface delete: " in
      let (first, gone, e1) =
        and_then-ok (wrapped before (client.delete_interface uuid w))
          (λ more. interface_ops client w uuids (ops ++ more)) e in
      let (rest, same, deleted) = interface_ops-ok w uuids (ops ++ first) e1 in
      (
        first ++ rest,
        same ∙ append_assoc ops first rest,
        (first, rest, refl, wrapped-ok before _ gone, deleted),
      )

  -- What one transaction deletes a port with: its removal from the bridge, its own deletion, and
  -- those of its interfaces.
  abbrev pub Removed : Bridge → Port → W → W → Type 0
  Removed bridge port w w' =
      (bridge_ops : List Op) × (port_op : List Op) × (iface_ops : List Op) × (replies : List Text)
      × (client.mutate_ports bridge delete_ports (port.uuid ∷ []) w ≡ ok bridge_ops)
      × (client.delete_port port w ≡ ok port_op)
      × Deleted w port.interfaces iface_ops
      × (client.transact (bridge_ops ++ (port_op ++ iface_ops)) w ≡ (ok replies, w'))

  delete_port_after-ok :
      (port : Port) (bridge_ops : List Op) (w w' : W)
      → delete_port_after client port bridge_ops w ≡ (ok tt, w')
      → (port_op : List Op) × (iface_ops : List Op) × (replies : List Text) × (client.delete_port
            port w
          ≡ ok port_op)
        × Deleted w port.interfaces iface_ops
        × (client.transact (bridge_ops ++ (port_op ++ iface_ops)) w ≡ (ok replies, w'))
  unfolding delete_port_after
  delete_port_after-ok port bridge_ops w w' e =
      let before = lit "failed to prepare port delete: " in
      let (all, made, e1) = reads-ok _ w (commit_both client bridge_ops) e in
      let (port_op, gone, e2) =
        and_then-ok (wrapped before (client.delete_port port w))
          (interface_ops client w port.interfaces) made in
      let (iface_ops, same, deleted) = interface_ops-ok w port.interfaces port_op e2 in
      let (replies, done) = committed-ok client (bridge_ops ++ all) w e1 in
      (
        port_op,
        iface_ops,
        replies,
        wrapped-ok before _ gone,
        deleted,
        ap (λ (ops : List Op). client.transact (bridge_ops ++ ops) w) (sym same) ∙ done,
      )

  delete_first-ok :
      (iface_id : Text) (bridge : Bridge) (ports : List Port) (w w' : W)
      → delete_first client iface_id bridge ports w ≡ (ok tt, w')
      → (port : Port) × (rest : List Port) × (ports ≡ port ∷ rest) × Removed bridge port w w'
  unfolding delete_first
  delete_first-ok iface_id bridge [] w w' e = absurd (cc)
  delete_first-ok iface_id bridge (port ∷ rest) w w' e =
      let before = lit "failed to prepare bridge mutation: " in
      let changed = client.mutate_ports bridge delete_ports (port.uuid ∷ []) w in
      let (bridge_ops, mutated, e1) =
        reads-ok (wrapped before changed) w (delete_port_after client port) e in
      let (port_op, iface_ops, replies, gone, deleted, done) =
        delete_port_after-ok port bridge_ops w w' e1 in
      (
        port,
        rest,
        refl,
        (
          bridge_ops,
          port_op,
          iface_ops,
          replies,
          wrapped-ok before changed mutated,
          gone,
          deleted,
          done,
        ),
      )

  -- A port is deleted without an error only from a bridge that exists, and it is the first port
  -- with the interface's id: one transaction takes it out of the bridge, deletes it, and deletes its
  -- interfaces in their order.
  pub del_port-ok :
      (bridge_name iface_id : Text) (w w' : W)
      → del_port client bridge_name iface_id w ≡ (ok tt, w')
      → (bridge : Bridge) × (port : Port) × (rest : List Port) × (client.get_bridge bridge_name w
          ≡ ok bridge)
        × (client.ports_with (iface_ids iface_id) w ≡ ok (port ∷ rest))
        × Removed bridge port w w'
  unfolding del_port delete_from
  del_port-ok bridge_name iface_id w w' e =
      let before = lit "failed to find bridge " ++ (bridge_name ++ lit ": ") in
      let listing = lit "failed to find port with iface-id " ++ (iface_id ++ lit ": ") in
      let (bridge, got, e1) =
        reads-ok (wrapped before (client.get_bridge bridge_name w)) w (delete_from client iface_id)
          e in
      let (ports, listed, e2) =
        reads-ok (wrapped listing (client.ports_with (iface_ids iface_id) w)) w
          (delete_first client iface_id bridge) e1 in
      let (port, rest, same, removed) = delete_first-ok iface_id bridge ports w w' e2 in
      (
        bridge,
        port,
        rest,
        wrapped-ok before _ got,
        wrapped-ok listing _ listed ∙ ap ok same,
        removed,
      )
