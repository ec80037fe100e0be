-- ===== src/Dhcp.antt =====
-- pkg/daemons/dhcp/dhcpv4.go, over package ipam. The packets of package dhcpv4, and how a reply is
-- made from a request, are parameters.
pub mod Laws
pub mod Start
mod Tests
use kloudstack.Base.{
  ℕ, Bool, true, false, Option, none, some, List, [], ◌∷◌, ◌++◌, map, ◌==◌, if◌then◌else◌,
}
use kloudstack.Base.Text.{Text, lit, text_eq, has_prefix, split}
use kloudstack.Base.Result.{
  Result, ok, err, panic, and_then, Action, pure, crash, reads, ◌>>=◌, attempt, logged,
}
use kloudstack.Net.{IpNet, parse_cidr, parse_ip, contains}
use kloudstack.Api.Network.{ClusterIp, ClusterIpPool}
use kloudstack.Ipam.Finders.{Env, find_cluster_ip_by_family_and_mac, find_cluster_ip_pool_by_name}

-- dhcpv4.MessageType
abbrev pub type_discover : ℕ
type_discover = 1

abbrev pub type_offer : ℕ
type_offer = 2

abbrev pub type_request : ℕ
type_request = 3

abbrev pub type_ack : ℕ
type_ack = 5

-- dhcpv4.Route: the destination, the bits of its mask, and the router; `none` is a nil address.
pub record Route : Type 0 where
  pub dest : Option ℕ
  pub ones : ℕ
  pub router : Option ℕ

-- What the server reads of a request: an option that is missing is `none`.
pub record Request : Type 0 where
  pub client_hw_addr : Text
  pub message_type : ℕ
  pub requested_ip_address : Option ℕ

-- What it sets in a reply.
pub record Reply : Type 0 where
  pub client_hw_addr : Text
  pub message_type : ℕ
  pub your_ip_addr : Option ℕ
  pub server_ip_addr : Option ℕ
  -- The bits of the mask and of the address.
  pub subnet_mask : Option (ℕ × ℕ)
  -- Option 121, as it is marshalled when it is set.
  pub routes : Option Text
  pub server_identifier : Option ℕ
  pub dns : List (Option ℕ)

-- Package ipam, `NewReplyFromRequest`, the bytes that `UpdateOption` has of
-- `OptClasslessStaticRoute` (it cuts the bytes of a destination from its IPv4 form, which panics if
-- there is none), `WriteTo` of the connection to the peer, and the variables MACPREFIX, SERVER and
-- DNS.
pub record Server (W : Type 0) : Type 0 where
  pub ipam : Env W
  pub reply_from_request : Request → Result Reply
  pub route_bytes : List Route → Result Text
  pub write_to : Reply → Action W (Unit {0})
  pub mac_prefix : Text
  pub server : Text
  pub dns : Text

-- `ipNet.Contains`, false for a nil address.
abbrev pub contains_ip : IpNet → Option ℕ → Bool
contains_ip n none = false
contains_ip n (some a) = contains n a

-- The routes to a gateway: one to the gateway itself if it is outside of the network, and the
-- default route.
unfoldable pub routes_to : IpNet → Option ℕ → List Route
routes_to n gateway =
    let default_route : Route = record {
      dest = parse_ip (lit "0.0.0.0");
      ones = 0;
      router = gateway;
    } in
    if contains_ip n gateway
    then default_route ∷ []
    else record { dest = gateway; ones = 32; router = parse_ip (lit "0.0.0.0") }
      ∷ default_route
      ∷ []

module _ {W : Type 0} (s : Server W) where
  -- `buildReply`
  unfoldable pub build_reply : Request → ℕ → Result Reply
  build_reply req message_type =
      and_then (s.reply_from_request req)
        (λ reply. ok (record reply { message_type = message_type }))

  -- The routes of a pool with a gateway.
  pub with_routes : Reply → Text → IpNet → Result Reply
  unfolding routes_to
  with_routes pkt gateway n =
      if text_eq gateway []
      then ok pkt
      else and_then (s.route_bytes (routes_to n (parse_ip gateway)))
          (λ bytes. ok (record pkt { routes = some bytes }))

  abbrev pub with_servers : Reply → Reply
  with_servers pkt = record pkt {
    server_ip_addr = parse_ip s.server;
    server_identifier = parse_ip s.server;
    dns = map parse_ip (split b',' s.dns);
  }

  -- The options of a packet whose cluster IP, pool and network are known.
  unfoldable pub with_options : Reply → ClusterIp → ClusterIpPool → IpNet → Result Reply
  unfolding with_routes
  with_options pkt cip pool n =
      and_then
        (with_routes
          (record pkt {
            subnet_mask = some (n.ones, n.bits);
            your_ip_addr = parse_ip cip.spec.address;
          })
          pool.spec.gateway n)
        (λ routed. ok (with_servers routed))

  -- The error of the CIDR is not looked at: without a network its mask is a nil pointer.
  pub in_network : Reply → ClusterIp → ClusterIpPool → Option (ℕ × IpNet) → Action W Reply
  unfolding with_options
  in_network pkt cip pool none = crash
  in_network pkt cip pool (some (_, n)) = reads (λ _. with_options pkt cip pool n)

  pub with_pool : Reply → ClusterIp → Result ClusterIpPool → Action W Reply
  unfolding in_network
  with_pool pkt cip (ok pool) = in_network pkt cip pool (parse_cidr pool.spec.cidr)
  with_pool pkt cip (err e) = pure pkt
  with_pool pkt cip panic = crash

  pub with_cluster_ip : Reply → Result ClusterIp → Action W Reply
  unfolding with_pool
  with_cluster_ip pkt (ok cip) =
      attempt (find_cluster_ip_pool_by_name s.ipam cip.spec.cluster_ip_pool) >>= with_pool pkt cip
  with_cluster_ip pkt (err e) = pure pkt
  with_cluster_ip pkt panic = crash

  -- `applyCommonOptions`: a lookup that fails leaves the packet as it is.
  unfoldable pub apply_common_options : Reply → Action W Reply
  unfolding with_cluster_ip
  apply_common_options pkt =
      attempt (find_cluster_ip_by_family_and_mac s.ipam pkt.client_hw_addr (lit "v4"))
      >>= with_cluster_ip pkt

  -- `sendPacket`
  unfoldable pub send_packet : Reply → Action W (Unit {0})
  send_packet pkt = logged (s.write_to pkt)

  pub offer_with : Result Reply → Action W (Unit {0})
  unfolding apply_common_options send_packet
  offer_with (ok offer) = apply_common_options offer >>= send_packet
  offer_with (err e) = pure tt
  offer_with panic = crash

  -- `handleDiscover`
  unfoldable pub handle_discover : Request → Action W (Unit {0})
  unfolding offer_with build_reply
  handle_discover req = offer_with (build_reply req type_offer)

  pub ack_with : ℕ → Result Reply → Action W (Unit {0})
  unfolding apply_common_options send_packet
  ack_with ip (ok ack) =
      apply_common_options (record ack { your_ip_addr = some ip }) >>= send_packet
  ack_with ip (err e) = pure tt
  ack_with ip panic = crash

  pub request_for : Result Reply → Option ℕ → Action W (Unit {0})
  unfolding ack_with
  request_for built none = pure tt
  request_for built (some ip) = ack_with ip built

  -- `handleRequest`; the reply is built only for a request with an address.
  unfoldable pub handle_request : Request → Action W (Unit {0})
  unfolding request_for build_reply
  handle_request req = request_for (build_reply req type_ack) req.requested_ip_address

  -- `handler`
  unfoldable pub handler : Request → Action W (Unit {0})
  handler req =
      if has_prefix req.client_hw_addr s.mac_prefix
      then if req.message_type == type_discover
        then handle_discover req
        else if req.message_type == type_request
        then handle_request req
        else pure tt
      else pure tt
