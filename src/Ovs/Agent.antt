-- ===== src/Ovs/Agent.antt =====
-- How pkg/ovs/agent.go opens, closes and starts its client.
use kloudstack.Base.{List, [], ◌∷◌}
use kloudstack.Base.Text.{Text, lit}
use kloudstack.Base.Result.{Action, pure, reads, ◌>>=◌}
use kloudstack.Ovsdb.{Indexes, Libovsdb}

-- `BridgeTable`, `PortTable` and `InterfaceTable` of pkg/ovs/models
abbrev pub ovs_tables : List Text
ovs_tables = lit "Bridge" ∷ lit "Port" ∷ lit "Interface" ∷ []

-- Ports are looked up by the id in their external ids.
abbrev pub ovs_indexes : Indexes
ovs_indexes = (lit "Port", (lit "external_ids", lit "iface-id") ∷ []) ∷ []

abbrev pub ovs_endpoint : Text
ovs_endpoint = lit "unix:/var/run/openvswitch/db.sock"

module _ {W Model Client : Type 0} (lib : Libovsdb W Model Client) where
  pub ovs_connected : Client → Action W Client
  ovs_connected client = lib.connect client >>= λ _. (lib.monitor_all client >>= λ _. pure client)

  pub ovs_client : Model → Action W Client
  unfolding ovs_connected
  ovs_client model = reads (lib.new_ovsdb_client model ovs_endpoint) >>= ovs_connected

  -- `CreateOVSagent`. The indexes are set before the error of the model is looked at, on a value that
  -- is dropped then.
  unfoldable pub create_ovs_agent : Action W Client
  unfolding ovs_client
  create_ovs_agent =
      reads (λ _. lib.new_client_db_model (lit "Open_vSwitch") ovs_tables) >>= λ model.
      ovs_client (lib.set_indexes ovs_indexes model)

  -- `Close`
  unfoldable pub close_ovs_agent : Client → W → W
  close_ovs_agent client w = lib.disconnect client w

  -- `Start`, of an agent's events.
  unfoldable pub start_ovs_agent : Client → W → W
  start_ovs_agent client w = lib.add_event_handler client w
