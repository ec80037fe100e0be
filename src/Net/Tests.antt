-- ===== src/Net/Tests.antt =====
-- Tests of the addresses.
use kloudstack.Base.{◌≡◌, refl, some, none, true}
use kloudstack.Base.Text.{lit}
use kloudstack.Net.Print.{ip_string}
use kloudstack.Net.Parse.{parse_ip}
use kloudstack.Net

parse_dotted : parse_ip (lit "192.168.1.1") ≡ some 0xffffc0a80101
unfolding parse_ip
parse_dotted = refl

parse_leading_zero : parse_ip (lit "192.168.01.1") ≡ none
unfolding parse_ip
parse_leading_zero = refl

parse_compressed : parse_ip (lit "2001:db8::8:0:0:1") ≡ some 0x20010db8000000000008000000000001
unfolding parse_ip
parse_compressed = refl

parse_mapped : parse_ip (lit "::ffff:10.0.0.1") ≡ some 0xffff0a000001
unfolding parse_ip
parse_mapped = refl

print_compressed : ip_string 0x20010db8000000000000000800000001 ≡ lit "2001:db8::8:0:1"
unfolding ip_string
print_compressed = refl

print_dotted : ip_string 0xffffc0a80101 ≡ lit "192.168.1.1"
unfolding ip_string
print_dotted = refl

parse_network :
    Net.parse_cidr (lit "10.1.2.3/8")
    ≡ some (0xffff0a010203, record { network = 0xffff0a000000; ones = 8; bits = 32 })
unfolding Net.parse_cidr
parse_network = refl

in_network :
    Net.contains (record { network = 0xffff0a000000; ones = 8; bits = 32 }) 0xffff0a010203 ≡ true
unfolding Net.contains
in_network = refl
