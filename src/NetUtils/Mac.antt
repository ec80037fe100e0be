-- ===== src/NetUtils/Mac.antt =====
-- pkg/net_utils/mac.go. The prefix is copied as it stands: it is taken to hold no `%`, which
-- `Sprintf` would read as a verb.
pub mod Laws
use Prim.Native.Nat.{bit_xor}
use kloudstack.Base.{ℕ, ◌+◌, ◌-◌, ◌/◌, ◌%◌, List, [], ◌∷◌, ◌++◌, ltb, if◌then◌else◌, get_or}
use kloudstack.Base.Text.{Text}
use kloudstack.Sha256.{sum256}

abbrev pub hex_char : ℕ → ℕ
hex_char d = if ltb d 10 then b'0' + d else b'a' + (d - 10)

-- `%02x` of a byte.
abbrev pub hex_byte : ℕ → Text
hex_byte b = hex_char (b / 16) ∷ hex_char (b % 16) ∷ []

-- The byte at an index of the digest, xored with those six, twelve and eighteen places on.
unfoldable pub mix : Text → ℕ → ℕ
mix hash i =
    bit_xor (bit_xor (bit_xor (get_or hash i 0) (get_or hash (i + 6) 0)) (get_or hash (i + 12) 0))
      (get_or hash (i + 18) 0)
    % 256

-- The five bytes behind the prefix.
unfoldable pub mac_parts : Text → List ℕ
mac_parts input =
    let hash = sum256 input in mix hash 1 ∷ mix hash 2 ∷ mix hash 3 ∷ mix hash 4 ∷ mix hash 5 ∷ []

unfoldable pub print_parts : List ℕ → Text
print_parts [] = []
print_parts (b ∷ bs) = b':' ∷ hex_byte b ++ print_parts bs

-- `GenerateVethMAC`
unfoldable pub generate_veth_mac : Text → Text → Text
generate_veth_mac input prefix = prefix ++ print_parts (mac_parts input)
