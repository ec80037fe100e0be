-- ===== src/NetUtils/Ip/Range.antt =====
-- Which indices have an address, and where it lies.
use kloudstack.Base.{
  ℕ, zero, suc, ◌+◌, ◌-◌, ◌*◌, ◌/◌, ◌^◌, ◌≤◌, ◌<◌, ◌≡◌, refl, sym, ap, inl, inr, Bool, true, false,
  Option, none, some, arith, ltb,
}
use mathlib.Core.Path.{subst}
use kloudstack.Base.Int.{ℤ, pos, negsuc, ◌≤ℤ◌}
use kloudstack.Base.Text.{Text}
use kloudstack.Base.Result.{ok}
use kloudstack.Net.Laws.{pow_pos, two_le_pow, masked-is_v4, contains_of_range, parse_cidr-IsCidr}
use kloudstack.Net.{IpNet, is_v4, parse_cidr, contains}
use kloudstack.NetUtils.Ip.{
  host_bits, count_usable_ips, offset_of, shifted, address_at, print_address, pick_usable_ip,
}

-- An offset is below the size of the network.
offset_of_lt : (v4 : Bool) (host : ℕ) (i : ℤ) {o : ℕ} → offset_of v4 host i ≡ some o → o < 2 ^ host
unfolding offset_of
offset_of_lt v4 host (negsuc i) e = absurd (cc)
offset_of_lt false host (pos i) e = ground arith
offset_of_lt true zero (pos i) e = ground arith
offset_of_lt true (suc zero) (pos i) e = ground arith
offset_of_lt true (suc (suc h)) (pos i) e = ground (arith, two_le_pow h)

offset_of-injective :
    (v4 : Bool) (host : ℕ) (i j : ℤ) {o : ℕ}
    → offset_of v4 host i ≡ some o
    → offset_of v4 host j ≡ some o
    → i ≡ j
unfolding offset_of
offset_of-injective v4 host i j e e' = ground arith

shifted-eq-some :
    (base : ℕ) (x : Option ℕ) {a : ℕ}
    → shifted base x ≡ some a
    → (o : ℕ) × (x ≡ some o) × (a ≡ base + o)
shifted-eq-some base none e = absurd (cc)
shifted-eq-some base (some o) e = (o, refl, ground arith)

-- Every address that comes out lies in the network.
pub address_at_bounds :
    (ip : ℕ) (n : IpNet) (i : ℤ) {a : ℕ}
    → address_at ip n i ≡ some a
    → (n.network ≤ a) × (a < n.network + 2 ^ host_bits n)
unfolding address_at
address_at_bounds ip n i e =
    let (o, p, q) = shifted-eq-some n.network (offset_of (is_v4 ip) (host_bits n) i) e in
    omega (arith, offset_of_lt (is_v4 ip) (host_bits n) i p)

-- Two indices never have the same address.
pub address_at-injective :
    (ip : ℕ) (n : IpNet) (i j : ℤ) {a : ℕ}
    → address_at ip n i ≡ some a
    → address_at ip n j ≡ some a
    → i ≡ j
unfolding address_at
address_at-injective ip n i j e e' =
    let (o, p, q) = shifted-eq-some n.network (offset_of (is_v4 ip) (host_bits n) i) e in
    let (o', p', q') = shifted-eq-some n.network (offset_of (is_v4 ip) (host_bits n) j) e' in
    let same : o' ≡ o = omega arith in
    offset_of-injective (is_v4 ip) (host_bits n) i j p (rw (← same) p')

-- What is known of a CIDR that is written as four decimal parts.
pub v4_network :
    (cidr : Text) {ip : ℕ} {n : IpNet}
    → parse_cidr cidr ≡ some (ip, n)
    → n.bits ≡ 32
    → (n.ones ≤ 32)
      × (is_v4 ip ≡ true)
      × (is_v4 n.network ≡ true)
      × (0xffff * 2 ^ 32 ≤ n.network)
      × (n.network + 2 ^ host_bits n ≤ 0x10000 * 2 ^ 32)
      × ((q : ℕ) × (n.network ≡ q * 2 ^ host_bits n))
v4_network cidr {ip} {n} e b =
    let (o, m, c) = parse_cidr-IsCidr cidr e in
    elim c [
      | inl (_, lo, hi) ↦
          let (l, u) = masked-is_v4 ip (n.bits - n.ones) (omega arith) lo hi in
          let net : 0xffff * 2 ^ 32 ≤ n.network = rw m l in
          let top : n.network + 2 ^ host_bits n ≤ 0x10000 * 2 ^ 32 = rw m u in
          let v1 : ip / 2 ^ 32 ≡ 0xffff = omega arith in
          let v2 : n.network / 2 ^ 32 ≡ 0xffff = omega (arith, pow_pos (host_bits n)) in
          (omega arith, ground arith, ground arith, net, top, (ip / 2 ^ host_bits n, m))
      | inr wide ↦ absurd (omega arith)
    ]

-- Every address picked from an IPv4 CIDR lies in the network that the CIDR stands for, as
-- `IPNet.Contains` tells.
pub address_at-contains :
    (cidr : Text) (i : ℤ) {ip a : ℕ} {n : IpNet}
    → parse_cidr cidr ≡ some (ip, n)
    → n.bits ≡ 32
    → address_at ip n i ≡ some a
    → contains n a ≡ true
address_at-contains cidr i {ip} {a} {n} e b h =
    let v = v4_network cidr e b in
    let r = address_at_bounds ip n i h in
    let (q, m) = v.5 in contains_of_range n a b v.0 v.3 q m r.0 r.1 v.4

wide_ge : (host : ℕ) → 2 ≤ host → 4 ≤ 2 ^ host
wide_ge zero h = absurd (omega arith)
wide_ge (suc zero) h = absurd (omega arith)
wide_ge (suc (suc h)) _ = two_le_pow h

offset_of-wide :
    (host i : ℕ) → 2 ≤ host → i ≤ 2 ^ host - 2 → offset_of true host (pos i) ≡ some (i + 1)
unfolding offset_of
offset_of-wide host i w h = ground arith

count_usable_ips-wide :
    (n : IpNet)
    → n.ones ≤ 30
    → n.bits ≡ 32
    → is_v4 n.network ≡ true
    → count_usable_ips n ≡ pos (2 ^ host_bits n - 2)
unfolding count_usable_ips
count_usable_ips-wide n o b v = ground (arith, wide_ge (host_bits n))

address_at-wide :
    (cidr : Text) (i : ℕ) {ip : ℕ} {n : IpNet}
    → parse_cidr cidr ≡ some (ip, n)
    → n.bits ≡ 32
    → n.ones ≤ 30
    → i ≤ 2 ^ host_bits n - 2
    → address_at ip n (pos i) ≡ some (n.network + (i + 1))
unfolding address_at
address_at-wide cidr i {ip} {n} e b o h =
    let v = v4_network cidr e b in
    let w = offset_of-wide (host_bits n) i (omega arith) h in
    subst
      (λ (t : Bool).
        shifted n.network (offset_of t (host_bits n) (pos i)) ≡ some (n.network + (i + 1)))
      (sym v.1) (ap (λ (t : Option ℕ). shifted n.network t) w)

-- In an IPv4 network with two host bits or more an index below the count of usable addresses has
-- the address behind the network's own by that many, which is not the broadcast address.
pub address_at-usable :
    (cidr : Text) (i : ℕ) {ip : ℕ} {n : IpNet}
    → parse_cidr cidr ≡ some (ip, n)
    → n.bits ≡ 32
    → n.ones ≤ 30
    → pos (i + 1) ≤ℤ count_usable_ips n
    → (address_at ip n (pos i) ≡ some (n.network + (i + 1)))
      × (n.network + (i + 1) < n.network + 2 ^ host_bits n - 1)
address_at-usable cidr i {ip} {n} e b o h =
    let c = count_usable_ips-wide n o b (v4_network cidr e b).2 in
    let g : pos (i + 1) ≤ℤ pos (2 ^ host_bits n - 2) = rw c at h in
    (address_at-wide cidr i e b o (omega arith), omega arith)

-- In an IPv4 network with two host bits or more, the index that equals the count of usable
-- addresses, one past the last of them, is not refused: it yields the broadcast address.
pub pick_usable_ip-broadcast :
    (cidr : Text) {ip : ℕ} {n : IpNet}
    → parse_cidr cidr ≡ some (ip, n)
    → n.bits ≡ 32
    → n.ones ≤ 30
    → pick_usable_ip cidr (some (count_usable_ips n))
      ≡ ok (print_address ip (n.network + 2 ^ host_bits n - 1))
pick_usable_ip-broadcast cidr {ip} {n} e b o =
    let v = v4_network cidr e b in
    let c = count_usable_ips-wide n o b v.2 in
    let p = address_at-wide cidr (2 ^ host_bits n - 2) e b o (omega arith) in
    let s : n.network + (2 ^ host_bits n - 2 + 1) ≡ n.network + 2 ^ host_bits n - 1 =
      omega (arith, wide_ge (host_bits n)) in
    let t : ltb n.bits n.ones ≡ false = ground arith in
    rw c (rw (← s) (unfold pick_usable_ip in rw (e, t, p)))
