-- ===== src/Cni/Daemon.antt =====
-- `Start` and `run` of pkg/daemons/ovn-cni-server/server.go, with a connection of `handleConnection`
-- from its bytes to its bytes. Sockets and JSON are parameters.
use kloudstack.Base.{Option, none, some, List, [], ◌∷◌, ◌++◌}
use kloudstack.Base.Text.{Text, lit}
use kloudstack.Base.Result.{Result, ok, err, panic, failure, Action, pure, ◌>>=◌}
use kloudstack.Base.Ending.{Ending}
use kloudstack.K8s.{ClientGo}
use kloudstack.Ovsdb.{Libovsdb}
use kloudstack.Ovs.Agent.{create_ovs_agent}
use kloudstack.Ovn.Agent.{create_ovn_agent}
use kloudstack.Ipam.New.{new_ipam}
use kloudstack.Cni.Types.{CniRequest, CniResponse}
use kloudstack.Cni.{Server, handle_connection}

-- The decoder of a request and the encoder of a response.
pub record Codec : Type 0 where
  pub decode_request : Text → Result CniRequest
  pub encode_response : CniResponse → Text

module _ {W OvsOp NbOp : Type 0} (codec : Codec) (s : Server W OvsOp NbOp) where
  -- Nothing is written without a response.
  pub written : Option CniResponse → Action W Text
  written none = pure []
  written (some r) = pure (codec.encode_response r)

  -- What a connection that brings some bytes is answered, before it is closed.
  unfoldable pub serve_bytes : Text → Action W Text
  unfolding written
  serve_bytes bytes = handle_connection s (codec.decode_request bytes) >>= written

-- `os.RemoveAll` and `net.Listen`.
pub record Listeners (W Listener : Type 0) : Type 0 where
  pub remove_all : Text → W → W
  pub listen : Text → Text → Action W Listener

-- `run`: a connection that is accepted is handed to a handler of its own, and an error is logged. The
-- list is what `Accept` returns, one after the other; the result is the handlers that are started.
unfoldable pub run : {Conn : Type 0} → List (Result Conn) → List Conn
run [] = []
run (ok conn ∷ rest) = conn ∷ run rest
run (err e ∷ rest) = run rest
run (panic ∷ rest) = []

-- `CNIServer` with its clients.
pub record Daemon (Listener Ovsdb Client : Type 0) : Type 0 where
  pub socket_path : Text
  pub listener : Listener
  pub ovs_agent : Ovsdb
  pub ovn_agent : Ovsdb
  pub ipam : Client

abbrev endpoint : Text
endpoint = lit "tcp:192.168.12.177:6641"

-- An error that `Start` returns, with the text before it.
abbrev returned_with :
    {W A : Type 0}
    → Text
    → Result A × W
    → (Result (Unit {0}) × W → Ending × W)
    → (A → W → Ending × W)
    → Ending × W
returned_with before (ok a, w) back k = k a w
returned_with before (err e, w) back k = back (err (failure (before ++ e.message)), w)
returned_with before (panic, w) back k = back (panic, w)

module _ {W Config Client Dynamic Model Ovsdb Listener : Type 0}
    (go : ClientGo W Config Client Dynamic) (lib : Libovsdb W Model Ovsdb)
    (net : Listeners W Listener) where
  -- `Start`: its error is given to `back`, and the daemon that is made to `k`, which runs it.
  unfoldable pub start_daemon :
      Text
      → (Result (Unit {0}) × W → Ending × W)
      → (Daemon Listener Ovsdb Client → W → Ending × W)
      → W
      → Ending × W
  start_daemon path back k w =
      returned_with (lit "failed to create socket: ")
        (net.listen (lit "unix") path (net.remove_all path w)) back
        (λ listener w1.
          returned_with (lit "failed to create ovs agent: ") (create_ovs_agent lib w1) back
            (λ ovs w2.
              returned_with (lit "failed to create ovs agent: ") (create_ovn_agent lib endpoint w2)
                back
                (λ ovn w3.
                  new_ipam go
                    (λ ipam w4.
                      k
                        (record {
                          socket_path = path;
                          listener = listener;
                          ovs_agent = ovs;
                          ovn_agent = ovn;
                          ipam = ipam;
                        })
                        w4)
                    w3)))
