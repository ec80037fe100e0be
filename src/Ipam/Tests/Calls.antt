-- ===== src/Ipam/Tests/Calls.antt =====
-- Two calls of `createClusterIP`, one after the other, and a call whose pool cannot be stored.
use kloudstack.Base.{
  ◌≡◌, ◌≢◌, refl, sym, ap, Bool, true, false, some, [], ◌∷◌, ◌==◌, length, if◌then◌else◌,
}
use kloudstack.Base.Int.{◌+ℤ◌, ◌-ℤ◌}
use kloudstack.Base.Text.{Text, lit, text_eq}
use kloudstack.Base.Result.{Result, ok, err, failure}
use kloudstack.Base.Result.Laws.{returned}
use kloudstack.Base.Decimal.{set_string, format_int, format_nat}
use kloudstack.Helpers.{string_to_big_int}
use kloudstack.Net.{IpNet, parse_cidr, dotted}
use kloudstack.NetUtils.Ip.{pick_usable_ip, address_at, offset_of, print_address}
use kloudstack.Api.Core.{named}
use kloudstack.Api.Network.{ClusterIp, ClusterIpPool}
use kloudstack.Ipam.Allocation.{counts_of, exhausted, counted, stored}
use kloudstack.Ipam.Finders.{Env, find_empty_cluster_ip_pool}
use kloudstack.Ipam.Create.{Claim, new_cluster_ip, moved_on, create_cluster_ip}
use kloudstack.Ipam.Create.Distinct.{Echoes}
use kloudstack.Ipam.Create.Orphan.{Refused, create_cluster_ip-orphan}
use kloudstack.Ipam.Create.Phases.{start, ended, step}
use kloudstack.Ipam.Create.Phases.System.{System, turn_one, turn_two, Reach, here, after}
use kloudstack.Ipam.Create.Phases.Race.{Onward}
use kloudstack.Ipam.Create.Phases.Addresses.{race-addresses}
use kloudstack.Ipam.Tests.Versions.{
  World, version, renewed, versioned, current, versioned-Versioned,
}

abbrev pub pool : ClusterIpPool
pool = record {
  meta = named [] (lit "public");
  spec = record { ip_family = lit "v4"; cidr = lit "10.0.0.0/29"; gateway = lit "10.0.0.1" };
  status = record {
    conditions = [];
    total_ips = lit "6";
    allocated_ips = lit "0";
    free_ips = lit "6";
    next_index = lit "0";
    released_cluster_ips = [];
  };
}

abbrev pub claim_for : Text → Claim
claim_for resource = record {
  interface = lit "eth0";
  mac = lit "02:02";
  family = lit "v4";
  resource = resource;
}

abbrev pub one_claim : Claim
one_claim = claim_for (lit "12/web")

abbrev pub two_claim : Claim
two_claim = claim_for (lit "12/mail")

abbrev pub after_one : ClusterIpPool
after_one = renewed pool (moved_on pool)

abbrev after_two : ClusterIpPool
after_two = renewed after_one (moved_on after_one)

abbrev one_ip : ClusterIp
one_ip = new_cluster_ip one_claim pool (lit "10.0.0.1") 1700000000

abbrev two_ip : ClusterIp
two_ip = new_cluster_ip two_claim after_one (lit "10.0.0.2") 1700000000

abbrev both : System World
both = record { one = start one_claim; two = start two_claim; world = ([], pool) }

-- The second call reads the pool once the first has stored it; both have begun to write by the end.
abbrev run_of : System World → System World
run_of s =
    let turn1 = λ (t : System World).
      let m = step versioned t.one t.world in record t { one = m.0; world = m.1 } in
    let turn2 = λ (t : System World).
      let m = step versioned t.two t.world in record t { two = m.0; world = m.1 } in
    turn2 (turn2 (turn2 (turn1 (turn1 (turn1 s)))))

run_reached : Reach versioned (Onward versioned version current) both (run_of both)
run_reached =
    after (after (after (after (after (after here turn_one) turn_one) turn_one) turn_two) turn_two)
      turn_two

one_served : (run_of both).one ≡ ended (ok (one_ip, some after_one))
unfolding step find_empty_cluster_ip_pool exhausted counts_of string_to_big_int pick_usable_ip
    text_eq address_at offset_of print_address parse_cidr dotted set_string ◌-ℤ◌ ◌+ℤ◌ moved_on
    stored counted format_int format_nat
one_served = refl

two_served : (run_of both).two ≡ ended (ok (two_ip, some after_two))
unfolding step find_empty_cluster_ip_pool exhausted counts_of string_to_big_int pick_usable_ip
    text_eq address_at offset_of print_address parse_cidr dotted set_string ◌-ℤ◌ ◌+ℤ◌ moved_on
    stored counted format_int format_nat
two_served = refl

abbrev pub network : IpNet
network = record { network = 0xffff0a000000; ones = 29; bits = 32 }

pub parsed : parse_cidr (lit "10.0.0.0/29") ≡ some (0xffff0a000000, network)
unfolding parse_cidr
parsed = refl

race-addresses_example : one_ip.spec.address ≢ two_ip.spec.address
race-addresses_example =
    race-addresses versioned version current versioned-Versioned one_claim two_claim ([], pool)
      (run_of both) one_ip two_ip after_one after_two 0xffff0a000000 network parsed refl run_reached
      one_served two_served

abbrev taken_once : Bool → ClusterIpPool → World → Result ClusterIpPool × World
taken_once refuse q w = if refuse then (err (failure (lit "conflict")), w) else (ok q, (w.0, q))

-- The same world, but that the status is refused while there is one cluster IP.
abbrev refusing : Env World
refusing = record versioned {
  cluster_ip_pools = record (versioned.cluster_ip_pools) {
    update_status = λ q w. taken_once (length w.0 == 1) q w;
  };
}

taken_same :
    (refuse : Bool) (q : ClusterIpPool) (w : World) {q' : ClusterIpPool} {w' : World}
    → taken_once refuse q w ≡ (ok q', w')
    → q' ≡ q
taken_same true q w e = absurd (cc)
taken_same false q w e = sym (returned e).0

refusing-Echoes : Echoes refusing
refusing-Echoes = record {
  create-spec = λ o w e. ap (λ (x : ClusterIp). x.spec) (sym (returned e).0);
  update_status-same = λ q w e.
      let same = taken_same (length w.0 == 1) q w e in
      (ap (λ (x : ClusterIpPool). x.spec) same, ap (λ (x : ClusterIpPool). x.status) same);
}

abbrev two_again : ClusterIp
two_again = new_cluster_ip two_claim pool (lit "10.0.0.1") 1700000000

was_refused :
    Refused refusing one_claim pool ([], pool) one_ip (failure (lit "conflict")) (one_ip ∷ [], pool)
unfolding step find_empty_cluster_ip_pool exhausted counts_of string_to_big_int pick_usable_ip
    text_eq address_at offset_of print_address parse_cidr dotted set_string ◌-ℤ◌ ◌+ℤ◌ moved_on
    stored counted format_int format_nat
was_refused = (lit "10.0.0.1", (one_ip ∷ [], pool), refl, refl, refl, refl, refl)

two_found :
    find_empty_cluster_ip_pool refusing two_claim.family (one_ip ∷ [], pool)
    ≡ (ok pool, (one_ip ∷ [], pool))
unfolding find_empty_cluster_ip_pool string_to_big_int set_string text_eq
two_found = refl

two_created :
    create_cluster_ip refusing two_claim (one_ip ∷ [], pool)
    ≡ (ok (two_again, some (moved_on pool)), (two_again ∷ one_ip ∷ [], moved_on pool))
unfolding create_cluster_ip find_empty_cluster_ip_pool exhausted counts_of string_to_big_int
    pick_usable_ip text_eq address_at offset_of print_address parse_cidr dotted set_string ◌-ℤ◌ ◌+ℤ◌
    moved_on stored counted format_int format_nat
two_created = refl

create_cluster_ip-orphan_example :
    (create_cluster_ip refusing one_claim ([], pool)
      ≡ (err (failure (lit "conflict")), (one_ip ∷ [], pool)))
    × (two_again.spec.address ≡ one_ip.spec.address)
create_cluster_ip-orphan_example =
    create_cluster_ip-orphan refusing refusing-Echoes one_claim two_claim pool ([], pool)
      (one_ip ∷ [], pool) (one_ip ∷ [], pool) (two_again ∷ one_ip ∷ [], moved_on pool) one_ip
      two_again (failure (lit "conflict")) (moved_on pool) was_refused two_found two_created
