-- ===== src/Ipam/Tests/Served.antt =====
-- Two calls of `createClusterIP` that are served, over the server that refuses a name that is taken.
use kloudstack.Base.{
  ◌≡◌, ◌≢◌, refl, sym, ap, Bool, true, false, [], ◌∷◌, ◌==◌, arith, inl, inr, Bool-cases,
}
use kloudstack.Base.Int.{◌+ℤ◌, ◌-ℤ◌, int_laws}
use kloudstack.Base.Text.{Text, lit, text_eq, text_eq_iff, replace_all}
use kloudstack.Base.Decimal.{set_string}
use kloudstack.Helpers.{string_to_big_int}
use kloudstack.NetUtils.Ip.{count_usable_ips}
use kloudstack.Api.Network.{ClusterIp, ClusterIpPool}
use kloudstack.Ipam.Allocation.{counts_of}
use kloudstack.Ipam.Create.{cluster_ip_name}
use kloudstack.Ipam.Create.Served.{Obliging, Room, Served, create_cluster_ip-Served}
use kloudstack.Ipam.Tests.Versions.{World, version, renewed, answer, current}
use kloudstack.Ipam.Tests.Calls.{pool, one_claim, two_claim, network, parsed}
use kloudstack.Ipam.Tests.Owner.{named_so, create_once, naming}

abbrev Free : Text → World → Type 0
Free name w = named_so name w.0 ≡ false

Free-behind :
    (o : ClusterIp) (w : World) (name : Text)
    → name ≢ o.meta.name
    → Free name w
    → named_so name (o ∷ w.0) ≡ false
Free-behind o w name differs free = elim (Bool-cases (text_eq o.meta.name name)) [
  | inl same ↦ absurd (differs (sym ((text_eq_iff o.meta.name name).0 same)))
  | inr apart ↦ rw apart free
]

same_version :
    (q now : ClusterIpPool) → q.meta ≡ now.meta → (version q.meta == version now.meta) ≡ true
same_version q now same =
    let e : version q.meta ≡ version now.meta = ap version same in ground arith

naming-Obliging : Obliging naming (lit "v4") current Free
naming-Obliging = record {
  lists = λ w. refl;
  creates = λ o w free. (
    o,
    (o ∷ w.0, w.1),
    ap (λ (b : Bool). create_once b o w) free,
    refl,
    λ name differs h. Free-behind o w name differs h,
  );
  stores = λ q w same. (
    renewed w.1 q,
    (w.0, renewed w.1 q),
    ap (λ (b : Bool). answer b q w) (same_version q w.1 same),
    refl,
    refl,
    λ name h. h,
  );
}

names_apart : text_eq (cluster_ip_name two_claim) (cluster_ip_name one_claim) ≡ false
unfolding text_eq replace_all
names_apart = refl

names_differ : cluster_ip_name two_claim ≢ cluster_ip_name one_claim
names_differ e =
    let same = (text_eq_iff (cluster_ip_name two_claim) (cluster_ip_name one_claim)).1 e in
    let apart = names_apart in absurd (cc)

Room-two : Room network 2 (counts_of pool.status)
unfolding counts_of string_to_big_int set_string text_eq count_usable_ips ◌-ℤ◌ ◌+ℤ◌
Room-two = (omega int_laws, omega int_laws, omega int_laws, omega int_laws)

create_cluster_ip-Served_example : Served naming (one_claim ∷ two_claim ∷ []) ([], pool)
create_cluster_ip-Served_example =
    create_cluster_ip-Served naming (lit "v4") current Free naming-Obliging
      (one_claim ∷ two_claim ∷ []) ([], pool) 0xffff0a000000 network (refl, (refl, tt))
      ((names_differ, tt), (tt, tt)) (refl, (refl, tt)) parsed refl (omega arith) Room-two
