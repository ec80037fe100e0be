-- ===== src/NetUtils/Ip/Tests.antt =====
-- Addresses of 10.0.0.0/29.
use kloudstack.Base.{◌≡◌, refl, ◌+◌, ◌-◌, ◌^◌, ◌<◌, some, true, arith}
use kloudstack.Base.Int.{ℤ, pos, ◌≤ℤ◌, int_laws}
use kloudstack.Base.Result.{ok}
use kloudstack.Base.Text.{Text, lit}
use kloudstack.Net.{IpNet, parse_cidr, contains, dotted}
use kloudstack.NetUtils.Ip.{pick_usable_ip, count_usable_ips, address_at, offset_of, print_address}
use kloudstack.NetUtils.Ip.Range.{address_at-contains, address_at-usable}
use kloudstack.NetUtils.Ip.Printed.{pick_usable_ip-injective}

abbrev cidr : Text
cidr = lit "10.0.0.0/29"

abbrev network : IpNet
network = record { network = 0xffff0a000000; ones = 29; bits = 32 }

parsed : parse_cidr cidr ≡ some (0xffff0a000000, network)
unfolding parse_cidr
parsed = refl

picked : pick_usable_ip cidr (some (pos 6)) ≡ ok (lit "10.0.0.7")
unfolding pick_usable_ip address_at offset_of print_address parse_cidr dotted
picked = refl

pick_usable_ip-injective_example : ◌≡◌ {A = ℤ} (pos 6) (pos 6)
pick_usable_ip-injective_example =
    pick_usable_ip-injective cidr (pos 6) (pos 6) (lit "10.0.0.7") 0xffff0a000000 network parsed
      refl picked picked

third : address_at 0xffff0a000000 network (pos 2) ≡ some 0xffff0a000003
unfolding address_at offset_of
third = refl

counted : pos (2 + 1) ≤ℤ count_usable_ips network
unfolding count_usable_ips
counted = omega int_laws

address_at-contains_example : contains network 0xffff0a000003 ≡ true
address_at-contains_example = address_at-contains cidr (pos 2) parsed refl third

address_at-usable_example :
    (address_at 0xffff0a000000 network (pos 2) ≡ some (0xffff0a000000 + (2 + 1)))
    × (0xffff0a000000 + (2 + 1) < 0xffff0a000000 + 2 ^ 3 - 1)
address_at-usable_example = address_at-usable cidr 2 parsed refl (omega arith) counted
