-- ===== src/Dhcp/Tests.antt =====
-- A server with one cluster IP, whose packets are written down.
use kloudstack.Base.{ℕ, zero, suc, false, Option, ◌≡◌, refl, none, some, List, [], ◌∷◌, ◌++◌}
use kloudstack.Base.Text.{Text, lit, text_eq}
use kloudstack.Base.Result.{Result, ok, err, panic, and_then, failure}
use kloudstack.Net.{IpNet, parse_cidr, parse_ip, contains}
use kloudstack.Api.Core.{named}
use kloudstack.Api.Network.{ClusterIp, ClusterIpPool}
use kloudstack.Api.Kube.{Kube}
use kloudstack.Ipam.Finders.{find_cluster_ip_by_family_and_mac, find_cluster_ip_pool_by_name}
use kloudstack.Dhcp.{
  Request, Reply, Server, type_request, type_discover, type_offer, type_ack, Route, routes_to,
  handle_discover, handle_request, send_packet,
}
use kloudstack.Dhcp.Laws.{told, discover-request, IsReachable, routes_to-IsReachable}

unused : {A : Type 0} → Result A
unused = err (failure (lit "not used"))

abbrev gives : {Obj : Type 0} → Result Obj → Result (List Obj) → Kube (List Reply) Obj
gives found items = record {
  get = λ namespace name w. found;
  list = λ sel limit w. items;
  create = λ o w. (unused, w);
  update = λ o w. (unused, w);
  update_status = λ o w. (unused, w);
  patch = λ o w. (unused, w);
  delete = λ namespace name w. (unused, w);
  delete_all_of = λ namespace sel w. (unused, w);
}

abbrev cip : ClusterIp
cip = record {
  meta = named [] (lit "12-web-eth0");
  spec = record {
    cluster_ip_pool = lit "public";
    interface = lit "eth0";
    address = lit "10.0.0.1";
    mac = lit "02:01";
    family = lit "v4";
    resource = lit "12/web";
  };
  status = record { conditions = []; history = [] };
}

abbrev pool : ClusterIpPool
pool = record {
  meta = named [] (lit "public");
  spec = record { ip_family = lit "v4"; cidr = lit "10.0.0.0/29"; gateway = lit "10.0.0.6" };
  status = record {
    conditions = [];
    total_ips = [];
    allocated_ips = [];
    free_ips = [];
    next_index = [];
    released_cluster_ips = [];
  };
}

-- The bits and the destination of each route.
marshalled : List Route → Result Text
marshalled [] = ok []
marshalled (r ∷ rs) = with_dest r.ones r.dest (marshalled rs)
  where
    with_dest : ℕ → Option ℕ → Result Text → Result Text
    with_dest zero dest rest = and_then rest (λ bytes. ok (0 ∷ bytes))
    with_dest (suc k) none rest = panic
    with_dest (suc k) (some a) rest = and_then rest (λ bytes. ok (suc k ∷ a ∷ bytes))

-- The server, with what the lookup by MAC gives.
abbrev serving : List ClusterIp → Server (List Reply)
serving cips = record {
  ipam = record {
    pods = gives unused unused;
    cluster_ips = gives unused (ok cips);
    cluster_ip_pools = gives (ok pool) unused;
    now = λ w. 0;
    mac_prefix = [];
  };
  reply_from_request = λ req. ok (record {
    client_hw_addr = req.client_hw_addr;
    message_type = 0;
    your_ip_addr = none;
    server_ip_addr = none;
    subnet_mask = none;
    routes = none;
    server_identifier = none;
    dns = [];
  });
  route_bytes = marshalled;
  write_to = λ reply w. (ok tt, reply ∷ w);
  mac_prefix = lit "02";
  server = lit "10.0.0.6";
  dns = lit "10.0.0.5";
}

abbrev request : Request
request = record {
  client_hw_addr = lit "02:01";
  message_type = type_request;
  requested_ip_address = some 7;
}

abbrev blank : Reply
blank = record {
  client_hw_addr = lit "02:01";
  message_type = 0;
  your_ip_addr = none;
  server_ip_addr = none;
  subnet_mask = none;
  routes = none;
  server_identifier = none;
  dns = [];
}

abbrev network : IpNet
network = record { network = 0xffff0a000000; ones = 29; bits = 32 }

found :
    find_cluster_ip_by_family_and_mac (serving (cip ∷ [])).ipam (lit "02:01") (lit "v4") []
    ≡ (ok cip, [])
unfolding find_cluster_ip_by_family_and_mac
found = refl

pooled : find_cluster_ip_pool_by_name (serving (cip ∷ [])).ipam (lit "public") [] ≡ (ok pool, [])
unfolding find_cluster_ip_pool_by_name
pooled = refl

parsed : parse_cidr (lit "10.0.0.0/29") ≡ some (0xffff0a000000, network)
unfolding parse_cidr
parsed = refl

abbrev discover : Request
discover = record {
  client_hw_addr = lit "02:01";
  message_type = type_discover;
  requested_ip_address = none;
}

inside : marshalled (routes_to network (parse_ip (lit "10.0.0.6"))) ≡ ok (0 ∷ [])
unfolding marshalled routes_to parse_ip contains
inside = refl

has_gateway : text_eq (lit "10.0.0.6") [] ≡ false
unfolding text_eq
has_gateway = refl

discover-request_example :
    (handle_discover (serving (cip ∷ [])) discover []
      ≡ send_packet
          (serving (cip ∷ []))
          (told (serving (cip ∷ [])) type_offer (lit "02:01") cip network (0 ∷ []))
          [])
    × (handle_request (serving (cip ∷ [])) request []
        ≡ send_packet
            (serving (cip ∷ []))
            (told (serving (cip ∷ [])) type_ack (lit "02:01") cip network (0 ∷ []))
            [])
discover-request_example =
    discover-request (serving (cip ∷ [])) discover request 7 0xffff0a000000 [] {offer = blank}
      {ack = blank} refl refl refl refl found pooled parsed has_gateway inside

routes_to-IsReachable_example :
    IsReachable network [] (routes_to network (some 0xffffc0a80101))
    × ((before : List Route) × (routes_to network (some 0xffffc0a80101)
          ≡ before
            ++ (record { dest = parse_ip (lit "0.0.0.0"); ones = 0; router = some 0xffffc0a80101 }
                ∷ [])))
routes_to-IsReachable_example = routes_to-IsReachable network (some 0xffffc0a80101)
