-- ===== src/Controllers/Network/Tests.antt =====
-- The pool of 10.0.0.0/29, and a logical switch with an empty northbound database.
use kloudstack.Base.{◌*◌, ◌≡◌, refl, ◌⊎◌, List, [], ◌∷◌}
use kloudstack.Base.Int.{ℤ, pos, ◌+ℤ◌, ◌-ℤ◌, ◌≤ℤ◌}
use kloudstack.Base.Text.{Text, lit, text_eq}
use kloudstack.Base.Result.{Result, ok, err, failure}
use kloudstack.Base.Decimal.{set_string, format_int, format_nat}
use kloudstack.Net.{IpNet}
use kloudstack.NetUtils.Ip.{count_usable_ips}
use kloudstack.Helpers.{string_to_big_int}
use kloudstack.Api.Core.{named}
use kloudstack.Api.Network.{ClusterIpPoolStatus, LogicalSwitch}
use kloudstack.Api.Kube.{Kube}
use kloudstack.Ipam.Allocation.{counts_of, exhausted, counted}
use kloudstack.Ipam.Allocation.Runs.{Run, stop, take_next}
use kloudstack.Ovn.{NbClient}
use kloudstack.Controllers.Network.{counted_status}
use kloudstack.Controllers.Network.Laws.{counted_status-capacity}

abbrev network : IpNet
network = record { network = 0xffff0a000000; ones = 29; bits = 32 }

abbrev empty_status : ClusterIpPoolStatus
empty_status = record {
  conditions = [];
  total_ips = [];
  allocated_ips = [];
  free_ips = [];
  next_index = [];
  released_cluster_ips = [];
}

starts : (counts_of empty_status).next ≡ pos 0
unfolding counts_of string_to_big_int text_eq
starts = refl

one_taken :
    Run
      (counts_of (counted_status network empty_status))
      (pos 0 ∷ [])
      (counted (counts_of (counted_status network empty_status)))
unfolding counts_of counted_status string_to_big_int text_eq exhausted count_usable_ips set_string
    ◌-ℤ◌ format_int format_nat
one_taken = take_next {c = counts_of (counted_status network empty_status)} refl stop

counted_status-capacity_example :
    (◌≡◌ {A = List ℤ} (pos 0 ∷ []) []) ⊎ (pos (4 * 1) ≤ℤ count_usable_ips network +ℤ pos 2)
counted_status-capacity_example = counted_status-capacity network empty_status starts one_taken

unused : {A : Type 0} → Result A
unused = err (failure (lit "not used"))

abbrev switches : Kube (List Text) LogicalSwitch
switches = record {
  get = λ namespace name w. ok (record { meta = named namespace name });
  list = λ sel limit w. unused;
  create = λ o w. (unused, w);
  update = λ o w. (unused, w);
  update_status = λ o w. (unused, w);
  patch = λ o w. (unused, w);
  delete = λ namespace name w. (unused, w);
  delete_all_of = λ namespace sel w. (unused, w);
}

abbrev nothing_there : NbClient (List Text) Text
nothing_there = record {
  new_uuid = λ w. lit "u";
  where_cache_switches = λ test w. ok [];
  where_cache_ports = λ test w. ok [];
  list_switches = λ w. ok [];
  where_switches = λ test w. ok [];
  create_switch = λ ls w. ok (lit "switch" ∷ []);
  create_port = λ lsp w. ok [];
  mutate_ports = λ ls how uuids w. ok [];
  delete_port = λ lsp w. ok [];
  transact = λ ops w. (ok [], ops);
}
