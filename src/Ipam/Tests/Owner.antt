-- ===== src/Ipam/Tests/Owner.antt =====
-- Calls of `createClusterIP` for one name, over a server that refuses a name that is taken.
use kloudstack.Base.{
  ◌≡◌, refl, ap, Bool, true, false, some, List, [], ◌∷◌, ◌==◌, any, if◌then◌else◌,
}
use mathlib.Core.Path.{subst}
use kloudstack.Base.Int.{◌+ℤ◌, ◌-ℤ◌}
use kloudstack.Base.Text.{Text, lit, text_eq, replace_all}
use kloudstack.Base.Text.Laws.{text_eq_refl}
use kloudstack.Base.Result.{Error, Result, ok, err, already_exists}
use kloudstack.Base.Decimal.{set_string, format_int, format_nat}
use kloudstack.Helpers.{string_to_big_int}
use kloudstack.Net.{parse_cidr, dotted}
use kloudstack.NetUtils.Ip.{pick_usable_ip, address_at, offset_of, print_address}
use kloudstack.Api.Network.{ClusterIp, ClusterIpPool}
use kloudstack.Ipam.Allocation.{counts_of, exhausted, counted, stored}
use kloudstack.Ipam.Finders.{Env, find_empty_cluster_ip_pool}
use kloudstack.Ipam.Create.{Claim, cluster_ip_name, new_cluster_ip, moved_on, create_cluster_ip}
use kloudstack.Ipam.Create.Phases.{start, ended, step}
use kloudstack.Ipam.Create.Phases.System.{System, turn_one, turn_two, Reach, here, after}
use kloudstack.Ipam.Create.Phases.Names.{Named}
use kloudstack.Ipam.Create.Phases.Owner.{Keeping, race-once, create_cluster_ip-taken}
use kloudstack.Ipam.Tests.Versions.{World, version, answer, versioned}
use kloudstack.Ipam.Tests.Calls.{pool, claim_for, after_one}

abbrev pub named_so : Text → List ClusterIp → Bool
named_so n xs = any (λ x. text_eq x.meta.name n) xs

abbrev Taken : Text → World → Type 0
Taken n w = named_so n w.0 ≡ true

abbrev refusal : Text → Error
refusal n = record { reason = already_exists; message = n }

abbrev pub create_once : Bool → ClusterIp → World → Result ClusterIp × World
create_once taken o w = if taken then (err (refusal o.meta.name), w) else (ok o, (o ∷ w.0, w.1))

abbrev pub naming : Env World
naming = record versioned {
  cluster_ips = record (versioned.cluster_ips) {
    create = λ o w. create_once (named_so o.meta.name w.0) o w;
  };
}

once_takes :
    (taken : Bool) (o : ClusterIp) (w : World) {o' : ClusterIp} {w' : World}
    → create_once taken o w ≡ (ok o', w')
    → Taken o.meta.name w'
once_takes true o w e = absurd (cc)
once_takes false o w e =
    subst (λ (x : Result ClusterIp × World). Taken o.meta.name x.1) e
      (rw (text_eq_refl o.meta.name) refl)

once_keeps :
    (n : Text) (taken : Bool) (o : ClusterIp) (w : World)
    → Taken n w
    → Taken n (create_once taken o w).1
once_keeps n true o w t = t
once_keeps n false o w t = behind (text_eq o.meta.name n)
  where
    behind : (b : Bool) → (if b then true else named_so n w.0) ≡ true
    behind true = refl
    behind false = t

status_keeps :
    (n : Text) (fits : Bool) (q : ClusterIpPool) (w : World)
    → Taken n w
    → Taken n (answer fits q w).1
status_keeps n true q w t = t
status_keeps n false q w t = t

naming-Named : Named naming Taken refusal
naming-Named = record {
  takes = λ o w e. once_takes (named_so o.meta.name w.0) o w e;
  refuses = λ o w t. ap (λ (b : Bool). create_once b o w) t;
  creates = λ n o w t. once_keeps n (named_so o.meta.name w.0) o w t;
  stores = λ n q w t. status_keeps n (version q.meta == version w.1.meta) q w t;
}

-- Two owners in two namespaces.
abbrev shop_claim : Claim
shop_claim = claim_for (lit "shop/web-1")

abbrev web_claim : Claim
web_claim = claim_for (lit "shop-web/1")

one_name : cluster_ip_name web_claim ≡ cluster_ip_name shop_claim
unfolding replace_all
one_name = refl

abbrev shop_ip : ClusterIp
shop_ip = new_cluster_ip shop_claim pool (lit "10.0.0.1") 1700000000

abbrev web_ip : ClusterIp
web_ip = new_cluster_ip web_claim pool (lit "10.0.0.1") 1700000000

abbrev both : System World
both = record { one = start shop_claim; two = start web_claim; world = ([], pool) }

-- Both read the pool before either creates.
abbrev run_of : System World → System World
run_of s =
    let turn1 = λ (t : System World).
      let m = step naming t.one t.world in record t { one = m.0; world = m.1 } in
    let turn2 = λ (t : System World).
      let m = step naming t.two t.world in record t { two = m.0; world = m.1 } in
    turn2 (turn1 (turn1 (turn2 (turn1 s))))

run_reached :
    Reach naming (Keeping naming Taken refusal (cluster_ip_name shop_claim)) both (run_of both)
run_reached =
    after (after (after (after (after here turn_one) turn_two) turn_one) turn_one) turn_two

shop_served : (run_of both).one ≡ ended (ok (shop_ip, some after_one))
unfolding step find_empty_cluster_ip_pool exhausted counts_of string_to_big_int pick_usable_ip
    text_eq address_at offset_of print_address parse_cidr dotted set_string ◌-ℤ◌ ◌+ℤ◌ moved_on
    stored counted format_int format_nat new_cluster_ip replace_all
shop_served = refl

race-once_example : ¬ ((run_of both).two ≡ ended (ok (web_ip, some after_one)))
race-once_example =
    race-once naming Taken refusal naming-Named shop_claim web_claim ([], pool) (run_of both)
      shop_ip web_ip after_one after_one one_name run_reached shop_served

shop_created :
    create_cluster_ip naming shop_claim ([], pool)
    ≡ (ok (shop_ip, some after_one), (shop_ip ∷ [], after_one))
unfolding create_cluster_ip find_empty_cluster_ip_pool exhausted counts_of string_to_big_int
    pick_usable_ip text_eq address_at offset_of print_address parse_cidr dotted set_string ◌-ℤ◌ ◌+ℤ◌
    moved_on stored counted format_int format_nat new_cluster_ip replace_all
shop_created = refl

web_found :
    find_empty_cluster_ip_pool naming (lit "v4") (shop_ip ∷ [], after_one)
    ≡ (ok after_one, (shop_ip ∷ [], after_one))
unfolding find_empty_cluster_ip_pool exhausted counts_of string_to_big_int text_eq set_string ◌-ℤ◌
    ◌+ℤ◌ moved_on stored counted format_int format_nat
web_found = refl

more_left : exhausted (counts_of after_one.status) ≡ false
unfolding exhausted counts_of string_to_big_int set_string ◌-ℤ◌ ◌+ℤ◌ moved_on stored counted
    format_int format_nat text_eq
more_left = refl

second_picked :
    pick_usable_ip (lit "10.0.0.0/29") (some (counts_of after_one.status).next)
    ≡ ok (lit "10.0.0.2")
unfolding exhausted counts_of string_to_big_int pick_usable_ip address_at offset_of print_address
    parse_cidr dotted set_string ◌-ℤ◌ ◌+ℤ◌ moved_on stored counted format_int format_nat text_eq
second_picked = refl

create_cluster_ip-taken_example :
    create_cluster_ip naming web_claim (shop_ip ∷ [], after_one)
    ≡ (err (refusal (cluster_ip_name web_claim)), (shop_ip ∷ [], after_one))
create_cluster_ip-taken_example =
    create_cluster_ip-taken naming Taken refusal naming-Named shop_claim web_claim ([], pool)
      (shop_ip ∷ [], after_one) shop_ip after_one after_one (lit "10.0.0.2") shop_created one_name
      web_found more_left second_picked
