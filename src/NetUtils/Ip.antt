-- ===== src/NetUtils/Ip.antt =====
-- pkg/net_utils/ip.go. A big.Int of an address is the number itself; the bytes that the code
-- takes from it are the number below 2 ^ 32 for an IPv4 address, and all of it otherwise.
pub mod Range
pub mod Pick
pub mod Printed
mod Tests
use kloudstack.Base.{
  ℕ, zero, suc, ◌+◌, ◌-◌, ◌%◌, ◌^◌, Bool, true, false, ◌&&◌, Option, none, some, leb, ltb, ◌==◌,
  if◌then◌else◌, ◌++◌,
}
use kloudstack.Base.Int.{ℤ, pos, negsuc, sub_ℕ}
use kloudstack.Base.Text.{Text, lit, quoted}
use kloudstack.Base.Decimal.{format_int}
use kloudstack.Base.Result.{Result, ok, err, failure}
use kloudstack.Net.{IpNet, is_v4, parse_cidr, dotted, ip_string}

-- The bits of a host's number.
abbrev pub host_bits : IpNet → ℕ
host_bits n = n.bits - n.ones

-- `CountUsableIPs`
unfoldable pub count_usable_ips : IpNet → ℤ
count_usable_ips n =
    if is_v4 n.network
    then if n.ones == 32 then pos 1 else if n.ones == 31 then pos 2 else sub_ℕ (2 ^ host_bits n) 2
    else pos (2 ^ host_bits n)

-- The offset of an index, or `none` for "out of range": by whether the address is IPv4 and by the
-- number of host bits.
unfoldable pub offset_of : Bool → ℕ → ℤ → Option ℕ
offset_of v4 host (negsuc i) = none
offset_of true host (pos i) =
    if host == 0
    then if i == 0 then some 0 else none
    else if host == 1
    then if leb i 1 then some i else none
    else if leb i (2 ^ host - 2)
    then some (i + 1)
    else none
offset_of false host (pos i) = if ltb i (2 ^ host) then some i else none

abbrev pub shifted : ℕ → Option ℕ → Option ℕ
shifted base none = none
shifted base (some o) = some (base + o)

-- The address at an index, as a number.
unfoldable pub address_at : ℕ → IpNet → ℤ → Option ℕ
address_at ip n index = shifted n.network (offset_of (is_v4 ip) (host_bits n) index)

-- How the bytes of the address are cut and printed.
unfoldable pub print_address : ℕ → ℕ → Text
print_address ip a = if is_v4 ip then dotted (a % 2 ^ 32) else ip_string a

-- The refusal of an index: "usable" is said of IPv4 networks with two host bits or more.
out_of_range : Text → ℕ → IpNet → ℤ → Text
out_of_range cidr ip n index = lit "index " ++ (format_int index ++ (range ++ cidr))
  where
    range : Text
    range =
        if is_v4 ip && leb 2 (host_bits n)
        then lit " out of usable range for "
        else lit " out of range for "

-- After the address is computed, or not.
pick_at : Text → ℕ → IpNet → ℤ → Option ℕ → Result Text
unfolding out_of_range
pick_at cidr ip n index none = err (failure (out_of_range cidr ip n index))
pick_at cidr ip n index (some a) = ok (print_address ip a)

-- After the CIDR is parsed, or not.
pick_in : Text → ℤ → Option (ℕ × IpNet) → Result Text
unfolding pick_at
pick_in cidr index none =
    err (failure (lit "invalid CIDR " ++ (quoted cidr ++ (lit ": invalid CIDR address: " ++ cidr))))
pick_in cidr index (some (ip, n)) =
    if ltb n.bits n.ones
    then err (failure (lit "invalid mask for " ++ cidr))
    else pick_at cidr ip n index (address_at ip n index)

-- `PickUsableIPFromCIDRIndex`; the index `none` is the nil pointer.
unfoldable pub pick_usable_ip : Text → Option ℤ → Result Text
unfolding pick_in
pick_usable_ip cidr none = err (failure (lit "index cannot be nil"))
pick_usable_ip cidr (some index) = pick_in cidr index (parse_cidr cidr)
