-- ===== src/Ovs.antt =====
-- pkg/ovs/ovs.go and the statistics of pkg/ovs/agent.go and pkg/ovs/eventhandler.go, over the client
-- of libovsdb and the gauges of package prometheus, which are parameters.
pub mod Laws
pub mod Delete
pub mod Stats
pub mod Agent
pub mod Metrics
mod Tests
use kloudstack.Base.{
  ℕ, Bool, true, false, Option, none, some, List, [], ◌∷◌, ◌++◌, length, ◌==◌, if◌then◌else◌,
}
use kloudstack.Base.Int.{ℤ}
use kloudstack.Base.Text.{Text, lit, quoted}
use kloudstack.Base.Result.{
  Result, ok, err, panic, failure, wrapped, and_then, Action, pure, fail, reads, ◌>>=◌, wrap,
}
use kloudstack.Api.Core.{StringMap}

-- `models.Bridge`, `models.Port` and `models.Interface`: the columns that the program uses.
pub record Bridge : Type 0 where
  pub uuid : Text
  pub name : Text
  pub ports : List Text

pub record Port : Type 0 where
  pub uuid : Text
  pub name : Text
  pub interfaces : List Text
  pub external_ids : StringMap

-- `none` is a nil map.
pub record Interface : Type 0 where
  pub uuid : Text
  pub name : Text
  pub kind : Text
  pub external_ids : Option StringMap
  pub statistics : Option (List (Text × ℤ))

pub data Change : Type 0 where
  insert_ports delete_ports : Change

pub record OvsClient (W Op : Type 0) : Type 0 where
  -- The first and the second `uuid.New` of a call.
  pub new_uuids : W → Text × Text
  -- `Get`, by the bridge's name.
  pub get_bridge : Text → W → Result Bridge
  -- `Where(&Port{ExternalIDs: ...}).List`
  pub ports_with : StringMap → W → Result (List Port)
  pub create_interface : Interface → W → Result (List Op)
  pub create_port : Port → W → Result (List Op)
  pub mutate_ports : Bridge → Change → List Text → W → Result (List Op)
  pub delete_port : Port → W → Result (List Op)
  -- By its UUID.
  pub delete_interface : Text → W → Result (List Op)
  -- The errors of the replies, which are only logged.
  pub transact : List Op → Action W (List Text)

abbrev pub iface_ids : Text → StringMap
iface_ids id = (lit "iface-id", id) ∷ []

module _ {W Op : Type 0} (client : OvsClient W Op) where
  pub committed : List Op → Action W (Unit {0})
  committed ops = wrap (lit "transaction failed: ") (client.transact ops) >>= λ _. pure tt

  abbrev pub commit_all : List Op → List Op → List Op → Action W (Unit {0})
  commit_all iface_op port_op mutate_ops = committed (iface_op ++ (port_op ++ mutate_ops))

  pub insert_port : Bridge → Port → List Op → List Op → Action W (Unit {0})
  unfolding committed
  insert_port bridge port iface_op port_op =
      reads (λ w.
        wrapped (lit "failed to prepare mutation: ")
          (client.mutate_ports bridge insert_ports (port.uuid ∷ []) w))
      >>= commit_all iface_op port_op

  pub create_port_for : Port → Bridge → List Op → Action W (Unit {0})
  unfolding insert_port
  create_port_for port bridge iface_op =
      reads (λ w. wrapped (lit "failed to create port: ") (client.create_port port w))
      >>= insert_port bridge port iface_op

  pub create_both : Interface → Port → Bridge → Action W (Unit {0})
  unfolding create_port_for
  create_both iface port bridge =
      reads (λ w. wrapped (lit "failed to create interface: ") (client.create_interface iface w))
      >>= create_port_for port bridge

  abbrev pub new_interface : W → Text → Text → Text → Interface
  new_interface w port_name iface_type iface_id = record {
    uuid = (client.new_uuids w).0;
    name = port_name;
    kind = iface_type;
    external_ids = some (iface_ids iface_id);
    statistics = none;
  }

  abbrev pub new_port : W → Text → Text → Port
  new_port w port_name iface_id = record {
    uuid = (client.new_uuids w).1;
    name = port_name;
    interfaces = (client.new_uuids w).0 ∷ [];
    external_ids = iface_ids iface_id;
  }

  -- `AddPort`
  unfoldable pub add_port : Text → Text → Text → Text → Action W (Unit {0})
  unfolding create_both
  add_port bridge_name port_name iface_type iface_id w =
      (reads (λ v.
            wrapped (lit "failed to get bridge " ++ (quoted bridge_name ++ lit ": "))
              (client.get_bridge bridge_name v))
          >>= create_both (new_interface w port_name iface_type iface_id)
              (new_port w port_name iface_id))
        w

  -- The loop over the port's interfaces, which appends to the operations on the port.
  pub interface_ops : W → List Text → List Op → Result (List Op)
  interface_ops w [] ops = ok ops
  interface_ops w (uuid ∷ uuids) ops =
      and_then
        (wrapped (lit "failed to prepare interface delete: ") (client.delete_interface uuid w))
        (λ more. interface_ops w uuids (ops ++ more))

  abbrev pub commit_both : List Op → List Op → Action W (Unit {0})
  commit_both bridge_ops port_op = committed (bridge_ops ++ port_op)

  pub delete_port_after : Port → List Op → Action W (Unit {0})
  unfolding interface_ops committed
  delete_port_after port bridge_ops =
      reads (λ w.
        and_then (wrapped (lit "failed to prepare port delete: ") (client.delete_port port w))
          (interface_ops w port.interfaces))
      >>= commit_both bridge_ops

  pub delete_first : Text → Bridge → List Port → Action W (Unit {0})
  unfolding delete_port_after
  delete_first iface_id bridge [] = fail (failure (lit "port not found with iface-id " ++ iface_id))
  delete_first iface_id bridge (port ∷ _) =
      reads (λ w.
        wrapped (lit "failed to prepare bridge mutation: ")
          (client.mutate_ports bridge delete_ports (port.uuid ∷ []) w))
      >>= delete_port_after port

  pub delete_from : Text → Bridge → Action W (Unit {0})
  unfolding delete_first
  delete_from iface_id bridge =
      reads (λ w.
        wrapped (lit "failed to find port with iface-id " ++ (iface_id ++ lit ": "))
          (client.ports_with (iface_ids iface_id) w))
      >>= delete_first iface_id bridge

  -- `DelPort`
  unfoldable pub del_port : Text → Text → Action W (Unit {0})
  unfolding delete_from
  del_port bridge_name iface_id =
      reads (λ w.
        wrapped (lit "failed to find bridge " ++ (bridge_name ++ lit ": "))
          (client.get_bridge bridge_name w))
      >>= delete_from iface_id
