-- ===== src/Ipam/Tests.antt =====
-- Runs of package ipam on a pool of six addresses.
mod Memory
mod Versions
mod Calls
mod Owner
mod Served
use kloudstack.Base.{ℕ, ◌≡◌, ◌↔◌, refl, ◌+◌, true, Option, none, some, [], ◌∷◌, ◌⊎◌, All, ◌≢◌}
use kloudstack.Base.Int.{ℤ, pos, ◌+ℤ◌, ◌-ℤ◌, ◌≤ℤ◌}
use kloudstack.Base.Text.{Text, lit, text_eq}
use kloudstack.Base.Result.{ok, err, panic}
use kloudstack.Base.Decimal.{set_string, format_int, format_nat}
use kloudstack.Helpers.{string_to_big_int}
use kloudstack.Api.Core.{Pod, named}
use kloudstack.Api.Network.{ClusterIp, ClusterIpPool}
use kloudstack.Ipam.Allocation.{counts_of, exhausted, counted, stored}
use kloudstack.Ipam.Finders.{find_empty_cluster_ip_pool}
use kloudstack.Ipam.Create.{
  IpamRequest, Claim, new_cluster_ip, moved_on, claim_of, create_cluster_ip,
  find_or_create_cluster_ip,
}
use kloudstack.NetUtils.Ip.{pick_usable_ip, address_at, offset_of, print_address}
use kloudstack.Net.{parse_cidr, dotted}
use kloudstack.Ipam.Finders.Laws.{IsFirstFree, free_of, find_empty_cluster_ip_pool-first}
use kloudstack.Ipam.Finders.{no_free_pool}
use kloudstack.Ipam.Create.Laws.{Allocated, Reused, create_cluster_ip-ok}
use kloudstack.Ipam.Create.Panic.{create_cluster_ip-panic}
use kloudstack.Ipam.Create.Distinct.{IsAddressOf, create_cluster_ip-distinct}
use kloudstack.Ipam.Create.Again.{find_or_create_cluster_ip-again}
use kloudstack.Ipam.Tests.Memory.{
  World, of_family, matches, memory_pods, memory_cluster_ips, memory_pools, memory, memory-IsLawful,
  memory-NeverPanics, memory-Echoes,
}

-- A pool of six addresses.
abbrev pool_at : Text → Text → ClusterIpPool
pool_at free next = record {
  meta = named [] (lit "public");
  spec = record { ip_family = lit "v4"; cidr = lit "10.0.0.0/29"; gateway = lit "10.0.0.1" };
  status = record {
    conditions = [];
    total_ips = lit "6";
    allocated_ips = lit "0";
    free_ips = free;
    next_index = next;
    released_cluster_ips = [];
  };
}

abbrev fresh : World
fresh = ([], pool_at (lit "6") (lit "0") ∷ [])

abbrev used_up : World
used_up = ([], pool_at (lit "6") (lit "5") ∷ [])

abbrev request : IpamRequest
request = record {
  namespace = lit "12";
  name = lit "web";
  interface = lit "eth0";
  mac = none;
  family = lit "v4";
}

abbrev web_pod : Pod
web_pod = record { meta = named (lit "12") (lit "web") }

abbrev claim : Claim
claim = claim_of memory request web_pod

abbrev first_ip : ClusterIp
first_ip = new_cluster_ip claim (pool_at (lit "6") (lit "0")) (lit "10.0.0.1") 1700000000

abbrev after_first : World
after_first =
    (first_ip ∷ [], moved_on (pool_at (lit "6") (lit "0")) ∷ pool_at (lit "6") (lit "0") ∷ [])

first_created :
    create_cluster_ip memory claim fresh
    ≡ (ok (first_ip, some (moved_on (pool_at (lit "6") (lit "0")))), after_first)
unfolding create_cluster_ip find_empty_cluster_ip_pool memory memory_pools memory_cluster_ips
    exhausted counts_of string_to_big_int pick_usable_ip claim_of of_family text_eq address_at
    offset_of print_address parse_cidr dotted set_string ◌-ℤ◌
first_created = refl

first_served :
    find_or_create_cluster_ip memory request fresh
    ≡ (ok (first_ip, some (moved_on (pool_at (lit "6") (lit "0")))), after_first)
unfolding find_or_create_cluster_ip memory memory_pods memory_cluster_ips matches
first_served = first_created

find_empty_cluster_ip_pool-first_example :
    ((pool : ClusterIpPool) × (find_empty_cluster_ip_pool memory (lit "v4") fresh
        ≡ (ok pool, fresh))
      × IsFirstFree (pool_at (lit "6") (lit "0") ∷ []) pool)
    ⊎ ((find_empty_cluster_ip_pool memory (lit "v4") fresh ≡ (err (no_free_pool (lit "v4")), fresh))
        × All (λ p. free_of p ≤ℤ pos 0) (pool_at (lit "6") (lit "0") ∷ []))
unfolding memory memory_pools of_family text_eq
find_empty_cluster_ip_pool-first_example =
    find_empty_cluster_ip_pool-first memory (lit "v4") fresh refl

create_cluster_ip-ok_example :
    ((p : ClusterIpPool) × (◌≡◌ {A = Option ClusterIpPool}
        (some (moved_on (pool_at (lit "6") (lit "0"))))
        (some p))
      × Allocated memory claim fresh first_ip p after_first)
    ⊎ ((◌≡◌ {A = Option ClusterIpPool} (some (moved_on (pool_at (lit "6") (lit "0")))) none)
        × Reused memory claim fresh first_ip after_first)
create_cluster_ip-ok_example =
    create_cluster_ip-ok memory claim fresh first_ip (some (moved_on (pool_at (lit "6") (lit "0"))))
      after_first first_created

used_up_found :
    find_empty_cluster_ip_pool memory claim.family used_up
    ≡ (ok (pool_at (lit "6") (lit "5")), used_up)
unfolding find_empty_cluster_ip_pool memory memory_pools string_to_big_int of_family claim_of
    text_eq set_string
used_up_found = refl

create_cluster_ip-panic_example : ((create_cluster_ip memory claim used_up).0 ≡ panic) ↔ (
    (exhausted (counts_of (pool_at (lit "6") (lit "5")).status) ≡ true)
    × ((pool_at (lit "6") (lit "5")).status.released_cluster_ips ≡ []))
create_cluster_ip-panic_example =
    create_cluster_ip-panic memory memory-NeverPanics claim used_up used_up_found

find_or_create_cluster_ip-again_example :
    find_or_create_cluster_ip memory request after_first
    ≡ (ok (first_ip, some (moved_on (pool_at (lit "6") (lit "0")))), after_first)
find_or_create_cluster_ip-again_example =
    find_or_create_cluster_ip-again memory memory-IsLawful request fresh first_ip
      (moved_on (pool_at (lit "6") (lit "0"))) after_first first_served

abbrev first_pool : ClusterIpPool
first_pool = moved_on (pool_at (lit "6") (lit "0"))

abbrev next_claim : Claim
next_claim = record {
  interface = lit "eth1";
  mac = lit "02:02";
  family = lit "v4";
  resource = lit "12/web";
}

abbrev second_ip : ClusterIp
second_ip = new_cluster_ip next_claim first_pool (lit "10.0.0.2") 1700000000

abbrev after_second : World
after_second =
    (second_ip ∷ first_ip ∷ [], moved_on first_pool ∷ first_pool ∷ pool_at (lit "6") (lit "0") ∷ [])

found_again :
    find_empty_cluster_ip_pool memory (lit "v4") after_first ≡ (ok first_pool, after_first)
unfolding find_empty_cluster_ip_pool memory memory_pools memory_cluster_ips exhausted counts_of
    string_to_big_int pick_usable_ip of_family text_eq address_at offset_of print_address parse_cidr
    dotted set_string ◌-ℤ◌ ◌+ℤ◌ moved_on stored counted format_int format_nat
found_again = refl

second_created :
    create_cluster_ip memory next_claim after_first
    ≡ (ok (second_ip, some (moved_on first_pool)), after_second)
unfolding create_cluster_ip find_empty_cluster_ip_pool memory memory_pools memory_cluster_ips
    exhausted counts_of string_to_big_int pick_usable_ip of_family text_eq address_at offset_of
    print_address parse_cidr dotted set_string ◌-ℤ◌ ◌+ℤ◌ moved_on stored counted format_int
    format_nat
second_created = refl
