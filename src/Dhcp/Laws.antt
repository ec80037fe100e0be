-- ===== src/Dhcp/Laws.antt =====
-- Which address a client is given.
use kloudstack.Base.{
  ◌⊎◌, inl, inr, ℕ, ◌≡◌, refl, Option, some, true, List, [], ◌∷◌, ◌++◌, Bool-cases, false, map,
}
use kloudstack.Base.Text.{Text, lit, text_eq, split}
use kloudstack.Base.Result.{Error, ok, err}
use kloudstack.Net.{IpNet, parse_cidr, parse_ip}
use kloudstack.Api.Network.{ClusterIp, ClusterIpPool}
use kloudstack.Ipam.Finders.{find_cluster_ip_by_family_and_mac, find_cluster_ip_pool_by_name}
use kloudstack.Dhcp.{
  type_ack, type_offer, Request, Reply, Server, Route, contains_ip, routes_to, handle_discover,
  offer_with, build_reply, with_options, with_routes, in_network, with_pool, with_cluster_ip,
  apply_common_options, send_packet, ack_with, request_for, handle_request,
}

module _ {W : Type 0} (s : Server W) where
  -- What a client is told whose cluster IP, pool and network are known, in a reply of a type, with the
  -- bytes of the routes.
  abbrev pub told : ℕ → Text → ClusterIp → IpNet → Text → Reply
  told message_type client cip n bytes = record {
    client_hw_addr = client;
    message_type = message_type;
    your_ip_addr = parse_ip cip.spec.address;
    server_ip_addr = parse_ip s.server;
    subnet_mask = some (n.ones, n.bits);
    routes = some bytes;
    server_identifier = parse_ip s.server;
    dns = map parse_ip (split b',' s.dns);
  }

  -- The options that are set, whatever the packet had.
  common-told :
      (pkt : Reply) (ip : ℕ) (w : W) {cip : ClusterIp} {pool : ClusterIpPool} {n : IpNet}
      {bytes : Text}
      → find_cluster_ip_by_family_and_mac s.ipam pkt.client_hw_addr (lit "v4") w ≡ (ok cip, w)
      → find_cluster_ip_pool_by_name s.ipam cip.spec.cluster_ip_pool w ≡ (ok pool, w)
      → parse_cidr pool.spec.cidr ≡ some (ip, n)
      → text_eq pool.spec.gateway [] ≡ false
      → s.route_bytes (routes_to n (parse_ip pool.spec.gateway)) ≡ ok bytes
      → apply_common_options s pkt w
        ≡ (ok (told pkt.message_type pkt.client_hw_addr cip n bytes), w)
  unfolding apply_common_options with_cluster_ip with_pool in_network with_options with_routes
  common-told pkt ip w found pooled parsed gateway made =
      rw (found, pooled, parsed, gateway, made) refl

  -- The client's cluster IP, or the pool of it, cannot be read.
  abbrev pub IsUnknown : Text → W → Type 0
  IsUnknown mac w =
      ((e : Error) × (find_cluster_ip_by_family_and_mac s.ipam mac (lit "v4") w ≡ (err e, w)))
      ⊎ ((cip : ClusterIp) × (e : Error) × (find_cluster_ip_by_family_and_mac s.ipam mac (lit "v4")
              w
            ≡ (ok cip, w))
          × (find_cluster_ip_pool_by_name s.ipam cip.spec.cluster_ip_pool w ≡ (err e, w)))

  -- A request of a client whose cluster IP, or the pool of it, cannot be read is acknowledged all the
  -- same, with the address that it asked for and without any option.
  pub handle_request-unknown :
      (req : Request) (asked : ℕ) (w : W) {reply : Reply}
      → req.requested_ip_address ≡ some asked
      → s.reply_from_request req ≡ ok reply
      → IsUnknown reply.client_hw_addr w
      → handle_request s req w
        ≡ send_packet s (record reply { message_type = type_ack; your_ip_addr = some asked }) w
  unfolding handle_request request_for build_reply ack_with apply_common_options with_cluster_ip
      with_pool
  handle_request-unknown req asked w requested made (inl (e, missing)) =
      rw (made, requested, missing)
  handle_request-unknown req asked w requested made (inr (cip, e, found, no_pool)) =
      rw (made, requested, found, no_pool)

  -- A client whose cluster IP, pool and network are found, the pool having a gateway whose routes can
  -- be marshalled, is offered and acknowledged the same but for the type: the address of the cluster
  -- IP, the mask of the network, the routes to the gateway, and the servers of the configuration,
  -- whatever address its request asks for and whatever the replies had.
  pub discover-request :
      (dis req : Request) (asked ip : ℕ) (w : W) {offer ack : Reply} {cip : ClusterIp}
      {pool : ClusterIpPool} {n : IpNet} {bytes : Text}
      → req.requested_ip_address ≡ some asked
      → s.reply_from_request dis ≡ ok offer
      → s.reply_from_request req ≡ ok ack
      → offer.client_hw_addr ≡ ack.client_hw_addr
      → find_cluster_ip_by_family_and_mac s.ipam ack.client_hw_addr (lit "v4") w ≡ (ok cip, w)
      → find_cluster_ip_pool_by_name s.ipam cip.spec.cluster_ip_pool w ≡ (ok pool, w)
      → parse_cidr pool.spec.cidr ≡ some (ip, n)
      → text_eq pool.spec.gateway [] ≡ false
      → s.route_bytes (routes_to n (parse_ip pool.spec.gateway)) ≡ ok bytes
      → (handle_discover s dis w ≡ send_packet s (told type_offer ack.client_hw_addr cip n bytes) w)
        × (handle_request s req w ≡ send_packet s (told type_ack ack.client_hw_addr cip n bytes) w)
  unfolding handle_discover offer_with build_reply handle_request request_for ack_with
  discover-request dis req asked ip w {offer} {ack} {cip} {pool} {n} {bytes} requested offered acked
        client found pooled parsed gateway made =
      let found' : find_cluster_ip_by_family_and_mac s.ipam offer.client_hw_addr (lit "v4") w
          ≡ (ok cip, w) =
        rw client found in
      let offered_one =
        common-told (record offer { message_type = type_offer }) ip w found' pooled parsed gateway
          made in
      let acked_one =
        common-told (record ack { message_type = type_ack; your_ip_addr = some asked }) ip w found
          pooled parsed gateway made in
      (rw (offered, offered_one, client) refl, rw (acked, requested, acked_one) refl)

-- Every route's router can be reached: it is on the link, being 0.0.0.0 or in the network, or a route
-- before it has the router as its destination.
abbrev pub IsReachable : IpNet → List Route → List Route → Type 0
IsReachable n before [] = Unit
IsReachable n before (r ∷ rs) =
    ((r.router ≡ parse_ip (lit "0.0.0.0"))
      ⊎ (contains_ip n r.router ≡ true)
      ⊎ ((b : Route) × (before ≡ b ∷ []) × (b.dest ≡ r.router) × (b.ones ≡ 32)))
    × IsReachable n (r ∷ before) rs

-- The routes of a pool with a gateway end with the default route to it, and every router among them can
-- be reached from the network.
pub routes_to-IsReachable :
    (n : IpNet) (gateway : Option ℕ)
    → IsReachable n [] (routes_to n gateway)
      × ((before : List Route) × (routes_to n gateway
            ≡ before
              ++ (record { dest = parse_ip (lit "0.0.0.0"); ones = 0; router = gateway } ∷ [])))
unfolding routes_to
routes_to-IsReachable n gateway = elim (Bool-cases (contains_ip n gateway)) [
  | inl inside ↦ rw inside (((inr (inl inside), tt), ([], refl)))
  | inr outside ↦ rw outside (
      (
        (
          inl refl,
          (
            inr (
                inr (
                  record { dest = gateway; ones = 32; router = parse_ip (lit "0.0.0.0") },
                  refl,
                  refl,
                  refl,
                )),
            tt,
          ),
        ),
        (record { dest = gateway; ones = 32; router = parse_ip (lit "0.0.0.0") } ∷ [], refl),
      ))
]
