-- ===== src/Dhcp/Start.antt =====
-- `StartV4Server` of pkg/daemons/dhcp/dhcpv4.go over package server4, which is a parameter.
use kloudstack.Base.Text.{Text}
use kloudstack.Base.Result.{Result, Action, ◌>>=◌}
use kloudstack.Base.Ending.{Ending}
use kloudstack.K8s.{ClientGo}
use kloudstack.Ipam.New.{new_ipam}
use kloudstack.Dhcp.{Request, Server, handler}

-- `NewServer` on an interface, with the handler of its requests on 0.0.0.0:67, and `Serve`.
pub record Server4 (W Socket : Type 0) : Type 0 where
  pub new_server : Text → (Request → Action W (Unit {0})) → Action W Socket
  pub serve : Socket → Action W (Unit {0})

module _ {W Config Client Dynamic Socket : Type 0} (go : ClientGo W Config Client Dynamic)
    (server4 : Server4 W Socket) (server_of : Client → Server W) where
  -- The error that it returns is given to what comes next.
  unfoldable pub start_v4_server : Text → (Result (Unit {0}) × W → Ending × W) → W → Ending × W
  start_v4_server iface k =
      new_ipam go (λ client w.
        k ((server4.new_server iface (handler (server_of client)) >>= server4.serve) w))
