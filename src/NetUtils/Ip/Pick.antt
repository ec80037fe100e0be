-- ===== src/NetUtils/Ip/Pick.antt =====
-- What a pick that succeeds has found.
use kloudstack.Base.{ℕ, ◌≡◌, ◌≢◌, refl, inl, inr, Option, none, some, arith, ltb, Bool-cases}
use kloudstack.Base.Int.{ℤ}
use kloudstack.Base.Text.{Text}
use kloudstack.Base.Result.{ok, panic}
use kloudstack.Net.{IpNet, parse_cidr}
use kloudstack.NetUtils.Ip.{address_at, print_address, pick_at, pick_in, pick_usable_ip}

pick_at_ok :
    (cidr : Text) (ip : ℕ) (n : IpNet) (i : ℤ) (o : Option ℕ) {t : Text}
    → pick_at cidr ip n i o ≡ ok t
    → (a : ℕ) × (o ≡ some a) × (t ≡ print_address ip a)
unfolding pick_at
pick_at_ok cidr ip n i none e = absurd (cc)
pick_at_ok cidr ip n i (some a) e = (a, refl, ground arith)

pick_in_ok :
    (cidr : Text) (i : ℤ) (o : Option (ℕ × IpNet)) {t : Text}
    → pick_in cidr i o ≡ ok t
    → (ip : ℕ) × (n : IpNet) × (a : ℕ) × (o ≡ some (ip, n))
      × (address_at ip n i ≡ some a)
      × (t ≡ print_address ip a)
unfolding pick_in
pick_in_ok cidr i none e = absurd (cc)
pick_in_ok cidr i (some (ip, n)) e = elim (Bool-cases (ltb n.bits n.ones)) [
  | inl bad ↦ absurd (ground arith)
  | inr fine ↦
      let (a, p, q) = pick_at_ok cidr ip n i (address_at ip n i) (rw fine at e) in
      (ip, n, a, refl, p, q)
]

-- An address that is picked is that of its index, printed.
pub pick_usable_ip-ok :
    (cidr : Text) (i : ℤ) {t : Text}
    → pick_usable_ip cidr (some i) ≡ ok t
    → (ip : ℕ) × (n : IpNet) × (a : ℕ) × (parse_cidr cidr ≡ some (ip, n))
      × (address_at ip n i ≡ some a)
      × (t ≡ print_address ip a)
unfolding pick_usable_ip
pick_usable_ip-ok cidr i e = pick_in_ok cidr i (parse_cidr cidr) e

pick_at_safe :
    (cidr : Text) (ip : ℕ) (n : IpNet) (i : ℤ) (o : Option ℕ) → pick_at cidr ip n i o ≢ panic
unfolding pick_at
pick_at_safe cidr ip n i none = λ e. cc
pick_at_safe cidr ip n i (some a) = λ e. cc

pick_in_safe : (cidr : Text) (i : ℤ) (o : Option (ℕ × IpNet)) → pick_in cidr i o ≢ panic
unfolding pick_in
pick_in_safe cidr i none = λ e. cc
pick_in_safe cidr i (some (ip, n)) = elim (Bool-cases (ltb n.bits n.ones)) [
  | inl bad ↦ rw bad (λ e. cc)
  | inr fine ↦ rw fine (pick_at_safe cidr ip n i (address_at ip n i))
]

-- A pick ends in an address or an error.
pub pick_usable_ip-safe : (cidr : Text) (o : Option ℤ) → pick_usable_ip cidr o ≢ panic
unfolding pick_usable_ip
pick_usable_ip-safe cidr none = λ e. cc
pick_usable_ip-safe cidr (some i) = pick_in_safe cidr i (parse_cidr cidr)
