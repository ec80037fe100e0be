-- ===== src/Ovs/Tests.antt =====
-- A bridge whose transactions are written down, and gauges that keep what is set.
use kloudstack.Base.{ℕ, ◌≡◌, refl, none, some, List, [], ◌∷◌, ◌++◌, arith}
use kloudstack.Base.Int.{ℤ, pos}
use kloudstack.Base.Text.{Text, lit, text_eq}
use kloudstack.Base.Text.Laws.{Lacks}
use kloudstack.Base.Result.{ok}
use kloudstack.Ovs.{
  Bridge, Port, Interface, Change, insert_ports, delete_ports, OvsClient, iface_ids, add_port,
  del_port,
}
use kloudstack.Ovs.Delete.{Removed, del_port-ok}
use kloudstack.Ovs.Laws.{add_port-ok}
use kloudstack.Ovs.Stats.{
  Labels, Gauges, interface_row, other_row, stat, on_update, on_update-launcher,
}

data Op : Type 0 where
  interface_made port_made port_gone interface_gone : Text → Op
  ports_changed : Text → Change → List Text → Op

abbrev br_int : Bridge
br_int = record { uuid = lit "b1"; name = lit "br-int"; ports = [] }

abbrev veth : Port
veth = record {
  uuid = lit "p1";
  name = lit "veth1";
  interfaces = lit "i1" ∷ [];
  external_ids = iface_ids (lit "12_web_eth0");
}

abbrev written : OvsClient (List Op) Op
written = record {
  new_uuids = λ w. (lit "i", lit "p");
  get_bridge = λ name w. ok br_int;
  ports_with = λ ids w. ok (veth ∷ []);
  create_interface = λ iface w. ok (interface_made iface.name ∷ []);
  create_port = λ port w. ok (port_made port.name ∷ []);
  mutate_ports = λ bridge how uuids w. ok (ports_changed bridge.name how uuids ∷ []);
  delete_port = λ port w. ok (port_gone port.name ∷ []);
  delete_interface = λ uuid w. ok (interface_gone uuid ∷ []);
  transact = λ ops w. (ok [], w ++ ops);
}

abbrev after_add : List Op
after_add =
    interface_made (lit "veth1")
    ∷ port_made (lit "veth1")
    ∷ ports_changed (lit "br-int") insert_ports (lit "p" ∷ [])
    ∷ []

added :
    add_port written (lit "br-int") (lit "veth1") (lit "system") (lit "12_web_eth0") []
    ≡ (ok tt, after_add)
unfolding add_port
added = refl

abbrev after_delete : List Op
after_delete =
    ports_changed (lit "br-int") delete_ports (lit "p1" ∷ [])
    ∷ port_gone (lit "veth1")
    ∷ interface_gone (lit "i1")
    ∷ []

removed : del_port written (lit "br-int") (lit "12_web_eth0") [] ≡ (ok tt, after_delete)
unfolding del_port
removed = refl

add_port-ok_example :
    (bridge : Bridge) × (iface_op : List Op) × (port_op : List Op) × (mutate_ops : List Op)
    × (replies : List Text) × (written.get_bridge (lit "br-int") [] ≡ ok bridge)
    × (written.create_interface
          (record {
            uuid = lit "i";
            name = lit "veth1";
            kind = lit "system";
            external_ids = some ((lit "iface-id", lit "12_web_eth0") ∷ []);
            statistics = none;
          })
          []
        ≡ ok iface_op)
    × (written.create_port
          (record {
            uuid = lit "p";
            name = lit "veth1";
            interfaces = lit "i" ∷ [];
            external_ids = (lit "iface-id", lit "12_web_eth0") ∷ [];
          })
          []
        ≡ ok port_op)
    × (written.mutate_ports bridge insert_ports ((written.new_uuids []).1 ∷ []) [] ≡ ok mutate_ops)
    × (written.transact (iface_op ++ (port_op ++ mutate_ops)) [] ≡ (ok replies, after_add))
add_port-ok_example =
    add_port-ok written (lit "br-int") (lit "veth1") (lit "system") (lit "12_web_eth0") [] after_add
      added

del_port-ok_example :
    (bridge : Bridge) × (port : Port) × (rest : List Port) × (written.get_bridge (lit "br-int") []
      ≡ ok bridge)
    × (written.ports_with (iface_ids (lit "12_web_eth0")) [] ≡ ok (port ∷ rest))
    × Removed written bridge port [] after_delete
del_port-ok_example = del_port-ok written (lit "br-int") (lit "12_web_eth0") [] after_delete removed

-- The labels and values that were set, the last one first, with 1 for `TxBytes`.
abbrev kept : Gauges (List (Labels × ℤ × ℕ))
kept = record {
  set_tx = λ labels v w. (labels, v, 1) ∷ w;
  set_rx = λ labels v w. (labels, v, 0) ∷ w;
}

abbrev seen : Interface
seen = record {
  uuid = lit "i1";
  name = lit "veth1";
  kind = lit "system";
  external_ids = some (iface_ids (lit "12_virt-launcher-web-x7_eth0"));
  statistics = some ((lit "rx_bytes", pos 10) ∷ (lit "tx_bytes", pos 20) ∷ []);
}

abbrev web_labels : Labels
web_labels = record { vm_namespace = lit "12"; vm = lit "web"; iface = lit "eth0" }

suffix-Lacks : Lacks b'-' (lit "x7")
suffix-Lacks = ((λ e. ground arith), ((λ e. ground arith), tt))

namespace-Lacks : Lacks b'_' (lit "12")
namespace-Lacks = ((λ e. ground arith), ((λ e. ground arith), tt))

pod-Lacks : Lacks b'_' (lit "virt-launcher-web-x7")
pod-Lacks = (
  (λ e. ground arith),
  (
    (λ e. ground arith),
    (
      (λ e. ground arith),
      (
        (λ e. ground arith),
        (
          (λ e. ground arith),
          (
            (λ e. ground arith),
            (
              (λ e. ground arith),
              (
                (λ e. ground arith),
                (
                  (λ e. ground arith),
                  (
                    (λ e. ground arith),
                    (
                      (λ e. ground arith),
                      (
                        (λ e. ground arith),
                        (
                          (λ e. ground arith),
                          (
                            (λ e. ground arith),
                            (
                              (λ e. ground arith),
                              (
                                (λ e. ground arith),
                                (
                                  (λ e. ground arith),
                                  (
                                    (λ e. ground arith),
                                    ((λ e. ground arith), ((λ e. ground arith), tt)),
                                  ),
                                ),
                              ),
                            ),
                          ),
                        ),
                      ),
                    ),
                  ),
                ),
              ),
            ),
          ),
        ),
      ),
    ),
  ),
)

eth0-Lacks : Lacks b'_' (lit "eth0")
eth0-Lacks =
    ((λ e. ground arith), ((λ e. ground arith), ((λ e. ground arith), ((λ e. ground arith), tt))))

on_update-launcher_example :
    on_update kept (lit "Interface") other_row (interface_row seen) []
    ≡ (web_labels, pos 20, 0) ∷ (web_labels, pos 10, 1) ∷ []
unfolding stat text_eq
on_update-launcher_example =
    on_update-launcher kept other_row seen (lit "12") (lit "web") (lit "x7") (lit "eth0")
      ((lit "rx_bytes", pos 10) ∷ (lit "tx_bytes", pos 20) ∷ []) (pos 10) (pos 20) [] suffix-Lacks
      namespace-Lacks pod-Lacks eth0-Lacks refl refl refl refl
