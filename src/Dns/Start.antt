-- ===== src/Dns/Start.antt =====
-- `Start` of pkg/daemons/dns/server.go over gocql and gRPC, which are parameters.
use kloudstack.Base.{ℕ, Bool, List, length, ◌==◌}
use kloudstack.Base.Text.{Text, lit}
use kloudstack.Base.Result.{Result, Action, ◌>>=◌, wrap}
use kloudstack.Config.{Viper}

-- What is set of gocql.ClusterConfig, with the timeouts in seconds; the consistency is One, or as it
-- is by default.
pub record Cluster : Type 0 where
  pub hosts : List Text
  pub keyspace : Text
  pub datacenter : Text
  pub consistency_one : Bool
  pub timeout : ℕ
  pub connect_timeout : ℕ

-- `os.RemoveAll`, `CreateSession`, `net.Listen`, and serving a server with a session on a listener,
-- which closes it at the end.
pub record Grpc (W Session Listener : Type 0) : Type 0 where
  pub remove_all : Text → W → W
  pub create_session : Cluster → Action W Session
  pub listen : Text → Text → Action W Listener
  pub serve : Session → Listener → Action W (Unit {0})
  pub close : Listener → W → W

module _ {W Session Listener : Type 0} (viper : Viper W) (grpc : Grpc W Session Listener) where
  unfoldable pub cluster_of : W → Cluster
  cluster_of w =
      let hosts = viper.get_string_slice (lit "SCYLLADB_HOSTS") w in
      record {
        hosts = hosts;
        keyspace = viper.get_string (lit "SCYLLADB_KEYSPACE") w;
        datacenter = viper.get_string (lit "SCYLLADB_DATACENTER") w;
        consistency_one = length hosts == 1;
        timeout = 5;
        connect_timeout = 5;
      }

  -- `defer listener.Close()`
  abbrev closing : Listener → Result (Unit {0}) × W → Result (Unit {0}) × W
  closing l (r, w) = (r, grpc.close l w)

  pub serve_session : Session → Action W (Unit {0})
  serve_session session =
      wrap (lit "failed to create unix socket: ") (grpc.listen (lit "tcp") (lit ":5000")) >>= λ l w.
      closing l (grpc.serve session l w)

  -- `Start`. The path of the socket is removed, and the server listens on port 5000.
  unfoldable pub start_dns : Text → Action W (Unit {0})
  unfolding serve_session cluster_of
  start_dns socket_path w =
      let w1 = grpc.remove_all socket_path w in
      (grpc.create_session (cluster_of w1) >>= serve_session) w1
