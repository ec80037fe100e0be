-- ===== src/Ovsdb.antt =====
-- The client of libovsdb as the agents open it, a parameter: the models of a database, and a client
-- that connects to an endpoint and monitors its tables.
use kloudstack.Base.{List}
use kloudstack.Base.Text.{Text}
use kloudstack.Base.Result.{Result, Action}

-- model.ClientIndex: for each table the columns with their keys, empty for a whole column.
abbrev pub Indexes : Type 0
Indexes = List (Text × List (Text × Text))

pub record Libovsdb (W Model Client : Type 0) : Type 0 where
  -- `NewClientDBModel`, with the tables that have models, and `SetIndexes`.
  pub new_client_db_model : Text → List Text → Result Model
  pub set_indexes : Indexes → Model → Model
  -- `NewOVSDBClient` with an endpoint.
  pub new_ovsdb_client : Model → Text → W → Result Client
  pub connect : Client → Action W (Unit {0})
  pub monitor_all : Client → Action W (Unit {0})
  pub disconnect : Client → W → W
  -- `Cache().AddEventHandler` with the handler of an agent.
  pub add_event_handler : Client → W → W
