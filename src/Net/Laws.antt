-- ===== src/Net/Laws.antt =====
-- The network that a CIDR stands for.
use native.Mathlib.Nat.{
  one-le-pow, pow-suc, pow-zero, zero-add, le-div_iff_mul-le, div-lt_iff_lt-mul, div-eq_of_lt-le,
  mul-le-mul_right,
}
use kloudstack.Base.{
  zero, suc, ap, sym, ◌∙◌, ◌/◌, ℕ, ◌+◌, ◌-◌, ◌*◌, ◌^◌, ◌≤◌, ◌<◌, ◌≡◌, ◌⊎◌, true, Option, none, some,
  List, [], ◌∷◌, arith, refl,
}
use Prim.Native.Nat.{min}
use kloudstack.Base.Text.{Text, split}
use kloudstack.Base.Decimal.{magnitude}
use kloudstack.Net.{IpNet, masked, contains, cidr_parts, with_mask, parse_cidr}
use kloudstack.Net.Parse.{Addr, parse_addr}
use kloudstack.Net.Parse.Laws.{InFour, parse_addr-InFour}

-- What is known of an address and its network.
abbrev pub IsCidr : ℕ × IpNet → Type 0
IsCidr (ip, n) =
    (n.ones ≤ n.bits)
    × (n.network ≡ masked ip (n.bits - n.ones))
    × ((n.bits ≡ 32) × (0xffff * 2 ^ 32 ≤ ip) × (ip < 0x10000 * 2 ^ 32) ⊎ (n.bits ≡ 128))

with_mask-IsCidr :
    (a : Option Addr) (ones : Option ℕ) (c : ℕ × IpNet)
    → ((b : Addr) → a ≡ some b → InFour b)
    → with_mask a ones ≡ some c
    → IsCidr c
unfolding with_mask
with_mask-IsCidr none ones c h e = absurd (cc)
with_mask-IsCidr (some a) none c h e = absurd (cc)
with_mask-IsCidr (some a) (some ones) c h e = ground (arith, h a refl)

cidr_parts-IsCidr : (ts : List Text) (c : ℕ × IpNet) → cidr_parts ts ≡ some c → IsCidr c
unfolding cidr_parts
cidr_parts-IsCidr [] c e = absurd (cc)
cidr_parts-IsCidr (a ∷ []) c e = absurd (cc)
cidr_parts-IsCidr (a ∷ b ∷ []) c e =
    with_mask-IsCidr (parse_addr a) (magnitude b) c (λ x p. parse_addr-InFour a p) e
cidr_parts-IsCidr (a ∷ b ∷ d ∷ ts) c e = absurd (cc)

-- Every CIDR that is parsed.
pub parse_cidr-IsCidr : (s : Text) {c : ℕ × IpNet} → parse_cidr s ≡ some c → IsCidr c
parse_cidr-IsCidr s {c} e = unfold parse_cidr in cidr_parts-IsCidr (split b'/' s) c e

pub pow_pos : (n : ℕ) → 0 < 2 ^ n
pow_pos n = one-le-pow n 2 (omega arith)

pub two_le_pow : (n : ℕ) → 4 ≤ 2 ^ suc (suc n)
two_le_pow n = simp pow-suc (omega (arith, pow_pos n))

pow_add : (a b : ℕ) → 2 ^ (a + b) ≡ 2 ^ a * 2 ^ b
pow_add zero b = simp (zero-add, pow-zero) (omega arith)
pow_add (suc a) b =
    let step : suc a + b ≡ suc (a + b) = omega arith in
    rw step (simp pow-suc (omega (arith, ap (λ (t : ℕ). t * 2) (pow_add a b))))

-- A multiple of `m` that is at most `x` is at most the largest such multiple.
le-masked : (c m x : ℕ) → 0 < m → c * m ≤ x → c * m ≤ x / m * m
le-masked c m x p h = mul-le-mul_right m ((le-div_iff_mul-le {k = m} {x = c} {y = x} p).1 h)

-- The network of an IPv4 address is an IPv4 address, not above it.
pub masked-is_v4 :
    (ip host : ℕ)
    → host ≤ 32
    → 0xffff * 2 ^ 32 ≤ ip
    → ip < 0x10000 * 2 ^ 32
    → (0xffff * 2 ^ 32 ≤ masked ip host) × (masked ip host + 2 ^ host ≤ 0x10000 * 2 ^ 32)
masked-is_v4 ip host h lo hi =
    let m = 2 ^ host in
    let k = 2 ^ (32 - host) in
    let km : k * m ≡ 2 ^ 32 =
      sym (pow_add (32 - host) host) ∙ ap (λ (t : ℕ). 2 ^ t) {y = 32} (omega arith) in
    let below : ip / m < 0x10000 * k =
      (div-lt_iff_lt-mul {k = m} {x = ip} {y = 0x10000 * k} (pow_pos host)).1
        (omega (arith, ap (λ (t : ℕ). 0x10000 * t) km)) in
    let low : 0xffff * k * m ≤ masked ip host =
      le-masked (0xffff * k) m ip (pow_pos host) (omega (arith, ap (λ (t : ℕ). 0xffff * t) km)) in
    (omega (arith, km), omega (arith, km, mul-le-mul_right m below))

pub contains_of_range :
    (n : IpNet) (a : ℕ)
    → n.bits ≡ 32
    → n.ones ≤ 32
    → 0xffff * 2 ^ 32 ≤ n.network
    → (q : ℕ) → n.network ≡ q * 2 ^ (n.bits - n.ones)
    → n.network ≤ a
    → a < n.network + 2 ^ (n.bits - n.ones)
    → n.network + 2 ^ (n.bits - n.ones) ≤ 0x10000 * 2 ^ 32
    → contains n a ≡ true
unfolding contains
contains_of_range n a b o lo q e l h u =
    let m = 2 ^ (n.bits - n.ones) in
    let p : 0 < m = pow_pos (n.bits - n.ones) in
    let d1 : a / m ≡ q = div-eq_of_lt-le {k = q} m {m = a} (omega arith) (omega arith) in
    let d2 : n.network / m ≡ q =
      div-eq_of_lt-le {k = q} m {m = n.network} (omega arith) (omega arith) in
    let v1 : n.network / 2 ^ 32 ≡ 0xffff = omega arith in
    let v2 : a / 2 ^ 32 ≡ 0xffff = omega arith in
    let lm : min (n.bits - n.ones) 32 ≡ n.bits - n.ones = omega arith in
    rw (v1, v2, lm, d1, d2) (ground arith)
