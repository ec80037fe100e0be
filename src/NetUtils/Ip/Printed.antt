-- ===== src/NetUtils/Ip/Printed.antt =====
-- The addresses that `PickUsableIPFromCIDRIndex` (pkg/net_utils/ip.go) returns, as they are printed.
use kloudstack.Base.{◌≤◌, ◌+◌, false, ltb, ℕ, ◌%◌, ◌^◌, ◌≡◌, refl, sym, ap, ◌∙◌, true, some, arith}
use mathlib.Core.Path.{subst, subst₂}
use kloudstack.Base.Int.{ℤ, pos, negsuc, ◌+ℤ◌, ◌≤ℤ◌, int_laws}
use kloudstack.Base.Text.{Text}
use kloudstack.Base.Result.{ok}
use kloudstack.Net.{IpNet, is_v4, parse_cidr, dotted}
use kloudstack.Net.Dotted.{dotted-injective}
use kloudstack.NetUtils.Ip.{
  address_at, print_address, pick_usable_ip, pick_in, pick_at, count_usable_ips,
}
use kloudstack.NetUtils.Ip.Range.{
  address_at-usable, v4_network, address_at_bounds, address_at-injective,
}
use kloudstack.NetUtils.Ip.Pick.{pick_usable_ip-ok}

print_address-dotted : (ip a : ℕ) → is_v4 ip ≡ true → print_address ip a ≡ dotted (a % 2 ^ 32)
unfolding print_address
print_address-dotted ip a v4 = rw v4 refl

-- Two addresses of an IPv4 network are printed differently.
pub print_address-injective :
    (cidr : Text) (i j : ℤ) {ip a b : ℕ} {n : IpNet}
    → parse_cidr cidr ≡ some (ip, n)
    → n.bits ≡ 32
    → address_at ip n i ≡ some a
    → address_at ip n j ≡ some b
    → print_address ip a ≡ print_address ip b
    → a ≡ b
print_address-injective cidr i j {ip} {a} {b} {n} e bits at_i at_j same =
    let (_, v4, _, low, high, _) = v4_network cidr e bits in
    let in_i = address_at_bounds ip n i at_i in
    let in_j = address_at_bounds ip n j at_j in
    let low_bits =
      dotted-injective (a % 2 ^ 32) (b % 2 ^ 32) (omega arith) (omega arith)
        (sym (print_address-dotted ip a v4) ∙ same ∙ print_address-dotted ip b v4) in
    omega arith

picked_at :
    (cidr : Text) (i : ℤ) (t : Text) (ip : ℕ) (n : IpNet)
    → parse_cidr cidr ≡ some (ip, n)
    → pick_usable_ip cidr (some i) ≡ ok t
    → (a : ℕ) × (address_at ip n i ≡ some a) × (t ≡ print_address ip a)
picked_at cidr i t ip n e pick =
    let (ip', n', a, e', at, shown) = pick_usable_ip-ok cidr i pick in
    let same : ip' ≡ ip = ground arith in
    let net : n' ≡ n = ground arith in
    (
      a,
      subst₂ (λ (x : ℕ) (m : IpNet). address_at x m i ≡ some a) same net at,
      subst (λ (x : ℕ). t ≡ print_address x a) same shown,
    )

-- In an IPv4 network, two indices that are picked as the same text are one index.
pub pick_usable_ip-injective :
    (cidr : Text) (i j : ℤ) (t : Text) (ip : ℕ) (n : IpNet)
    → parse_cidr cidr ≡ some (ip, n)
    → n.bits ≡ 32
    → pick_usable_ip cidr (some i) ≡ ok t
    → pick_usable_ip cidr (some j) ≡ ok t
    → i ≡ j
pick_usable_ip-injective cidr i j t ip n e bits pick_i pick_j =
    let (a, at_i, shown_i) = picked_at cidr i t ip n e pick_i in
    let (b, at_j, shown_j) = picked_at cidr j t ip n e pick_j in
    let same = print_address-injective cidr i j e bits at_i at_j (sym shown_i ∙ shown_j) in
    address_at-injective ip n i j at_i (at_j ∙ ap some (sym same))

-- An index below the count of usable addresses is picked.
pub picked :
    (cidr : Text) (i : ℤ) {ip : ℕ} {n : IpNet}
    → parse_cidr cidr ≡ some (ip, n)
    → n.bits ≡ 32
    → n.ones ≤ 30
    → pos 0 ≤ℤ i
    → i +ℤ pos 1 ≤ℤ count_usable_ips n
    → (t : Text) × (pick_usable_ip cidr (some i) ≡ ok t)
unfolding pick_usable_ip pick_in pick_at
picked cidr (negsuc i) e bits ones low usable = absurd (omega int_laws)
picked cidr (pos i) {ip} {n} e bits ones low usable =
    let (at, _) = address_at-usable cidr i e bits ones (omega int_laws) in
    let fits : ltb n.bits n.ones ≡ false = ground arith in
    (print_address ip (n.network + (i + 1)), rw (e, fits, at) refl)
