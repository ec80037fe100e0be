-- ===== src/Cni/Plugin.antt =====
-- The plugin of cni/ovn/main.go: its two commands over the socket of the daemon. Sockets and JSON are
-- parameters.
pub mod Laws
use kloudstack.Base.{List, []}
use kloudstack.Base.Text.{Text, lit}
use kloudstack.Base.Result.{Result, ok, err, panic, Action, pure, reads, ◌>>=◌}
use kloudstack.Cni.Types.{CmdArgs, CniRequest, CniResponse, CniResult}
use kloudstack.Cni.{run_on_daemon}

-- `net.Dial`, `Write`, reading to the end, and `Close` of a connection.
pub record Sockets (W Conn : Type 0) : Type 0 where
  pub dial : Text → Text → Action W Conn
  pub write : Conn → Text → Action W (Unit {0})
  pub read_all : Conn → Action W Text
  pub close : Conn → W → W

-- The encoder of a request, whose error is dropped, the decoder of a response, and what prints a
-- result.
pub record PluginCodec (W : Type 0) : Type 0 where
  pub marshal_request : CniRequest → Text
  pub unmarshal_response : Text → Result CniResponse
  pub print_result : CniResult → Action W (Unit {0})

abbrev pub socket_path : Text
socket_path = lit "/var/run/kloudstack/ovn-cni.sock"

module _ {W Conn : Type 0} (net : Sockets W Conn) (codec : PluginCodec W) where
  -- What is written and read on a connection.
  abbrev pub exchange : Conn → Text → Action W Text
  exchange conn bytes = net.write conn bytes >>= λ _. net.read_all conn

  -- `defer conn.Close()`
  abbrev pub closed : {A : Type 0} → Conn → Result A × W → Result A × W
  closed conn (r, w) = (r, net.close conn w)

  pub exchange_on : CniRequest → Conn → Action W CniResponse
  exchange_on req conn w = closed conn (
      (exchange conn (codec.marshal_request req) >>= λ bytes.
      reads (λ _. codec.unmarshal_response bytes))
        w)

  -- `callCniDaemon`
  unfoldable pub call_cni_daemon : Text → CniRequest → Action W CniResponse
  unfolding exchange_on
  call_cni_daemon socket req = net.dial (lit "unix") socket >>= exchange_on req

  -- `cmdAdd` and `cmdDel`
  unfoldable pub cmd_add : CmdArgs → Action W (Unit {0})
  cmd_add args = run_on_daemon (call_cni_daemon socket_path) (lit "Add") args >>= codec.print_result

  unfoldable pub cmd_del : CmdArgs → Action W (Unit {0})
  cmd_del args = run_on_daemon (call_cni_daemon socket_path) (lit "Del") args >>= λ _. pure tt
