-- ===== src/Net.antt =====
-- Addresses of Go's package net: `ParseIP`, `ParseCIDR`, `IP.String`, `IP.To4`, `IPNet.Contains`
-- and `IPMask.Size`. An address is the number that its 16-byte form holds, big end first.
pub mod Laws
pub mod Dotted
mod Tests
pub mod Parse
mod Print
unfoldable pub use Parse.{parse_ip, parse_addr}
pub use Parse.{Addr}
unfoldable pub use Print.{dotted, ip_string}
use kloudstack.Base.{
  ℕ, ◌+◌, ◌-◌, ◌*◌, ◌/◌, ◌%◌, ◌^◌, Bool, not, ◌&&◌, Option, none, some, List, [], ◌∷◌, leb, ◌==◌,
  if◌then◌else◌,
}
use kloudstack.Base.Text.{Text, split}
use kloudstack.Base.Decimal.{magnitude}
use Prim.Native.Nat.{min}

-- An address under a mask of `ones` bits out of `bits`, 32 or 128.
pub record IpNet : Type 0 where
  pub network : ℕ
  pub ones : ℕ
  pub bits : ℕ

-- `ip.To4() != nil`: the address is 0xffff and four bytes behind ten zeros.
abbrev pub is_v4 : ℕ → Bool
is_v4 ip = ip / 2 ^ 32 == 0xffff

-- The address of `ip` under a mask that leaves `host` bits.
abbrev pub masked : ℕ → ℕ → ℕ
masked ip host = ip / 2 ^ host * 2 ^ host

-- An address under a mask, if the mask is not longer than the address.
with_mask : Option Addr → Option ℕ → Option (ℕ × IpNet)
with_mask none ones = none
with_mask (some a) none = none
with_mask (some a) (some ones) =
    let bits = if a.four then 32 else 128 in
    if leb ones bits
    then some (a.value, record { network = masked a.value (bits - ones); ones = ones; bits = bits })
    else none

cidr_parts : List Text → Option (ℕ × IpNet)
unfolding with_mask
cidr_parts (address ∷ mask ∷ []) = with_mask (parse_addr address) (magnitude mask)
cidr_parts _ = none

-- `net.ParseCIDR`: the address as written and the network; `none` is the error.
unfoldable pub parse_cidr : Text → Option (ℕ × IpNet)
unfolding cidr_parts parse_addr split magnitude
parse_cidr s = cidr_parts (split b'/' s)

-- `n.Contains(ip)`
unfoldable pub contains : IpNet → ℕ → Bool
contains n ip =
    let host = if is_v4 n.network then min (n.bits - n.ones) 32 else n.bits - n.ones in
    (if is_v4 n.network then is_v4 ip else not (is_v4 ip))
    && (ip / 2 ^ host == n.network / 2 ^ host)
