-- ===== src/Ovn/Agent.antt =====
-- How pkg/ovn/agent.go opens and closes its client.
use kloudstack.Base.{List, [], ◌∷◌}
use kloudstack.Base.Text.{Text, lit}
use kloudstack.Base.Result.{Action, pure, reads, ◌>>=◌}
use kloudstack.Ovsdb.{Indexes, Libovsdb}

-- `LogicalSwitchTable` and `LogicalSwitchPortTable` of pkg/ovn/models
abbrev pub nb_tables : List Text
nb_tables = lit "Logical_Switch" ∷ lit "Logical_Switch_Port" ∷ []

abbrev pub nb_indexes : Indexes
nb_indexes = (lit "Logical_Switch", (lit "name", []) ∷ []) ∷ []

module _ {W Model Client : Type 0} (lib : Libovsdb W Model Client) where
  pub nb_connected : Client → Action W Client
  nb_connected client = lib.connect client >>= λ _. (lib.monitor_all client >>= λ _. pure client)

  pub nb_client : Text → Model → Action W Client
  unfolding nb_connected
  nb_client endpoint model = reads (lib.new_ovsdb_client model endpoint) >>= nb_connected

  -- `CreateOVNagent`
  unfoldable pub create_ovn_agent : Text → Action W Client
  unfolding nb_client
  create_ovn_agent endpoint =
      reads (λ _. lib.new_client_db_model (lit "OVN_Northbound") nb_tables) >>= λ model.
      nb_client endpoint (lib.set_indexes nb_indexes model)

  -- `Close`
  unfoldable pub close_ovn_agent : Client → W → W
  close_ovn_agent client w = lib.disconnect client w
