-- ===== src/Net/Parse.antt =====
-- `netip.ParseAddr` without zones, which `net.ParseIP` and `net.ParseCIDR` refuse.
pub mod Laws
use kloudstack.Base.{
  ℕ, zero, suc, ◌+◌, ◌-◌, ◌*◌, ◌/◌, ◌%◌, ◌^◌, Bool, true, false, not, ◌&&◌, ◌||◌, Option, none,
  some, List, [], ◌∷◌, ◌++◌, leb, ltb, ◌==◌, if◌then◌else◌, length,
}
use kloudstack.Base.Text.{Text, split}
use kloudstack.Base.Decimal.{read_digits}

-- The 16-byte value, and whether the address was written in four parts.
pub record Addr : Type 0 where
  pub value : ℕ
  pub four : Bool

abbrev bind : {A B : Type 0} → Option A → (A → Option B) → Option B
bind none f = none
bind (some a) f = f a

abbrev is_empty : {A : Type 0} → List A → Bool
is_empty [] = true
is_empty (x ∷ xs) = false

in_octet : Option ℕ → Option ℕ
in_octet none = none
in_octet (some n) = if leb n 255 then some n else none

-- One decimal part up to 255, with no leading zero.
octet : Text → Option ℕ
unfolding in_octet read_digits
octet [] = none
octet (b ∷ s) = if (b == b'0') && not (is_empty s) then none else in_octet (read_digits 0 (b ∷ s))

v4_parts : List Text → Option ℕ
unfolding octet
v4_parts (a ∷ b ∷ c ∷ d ∷ []) = bind (octet a) λ w.
    bind (octet b)
      λ x. bind (octet c) λ y. bind (octet d) λ z. some (w * 2 ^ 24 + x * 2 ^ 16 + y * 2 ^ 8 + z)
v4_parts _ = none

hex_digit : ℕ → Option ℕ
hex_digit b =
    if leb b'0' b && leb b b'9'
    then some (b - b'0')
    else if leb b'a' b && leb b b'f'
    then some (b - b'a' + 10)
    else if leb b'A' b && leb b b'F'
    then some (b - b'A' + 10)
    else none

read_hex : ℕ → Text → Option ℕ
unfolding hex_digit
read_hex acc [] = some acc
read_hex acc (b ∷ s) = elim (hex_digit b) [ none ↦ none | some d ↦ read_hex (acc * 16 + d) s ]

-- A group of one to four hexadecimal digits.
hextet : Text → Option ℕ
unfolding read_hex
hextet [] = none
hextet (b ∷ s) = if leb (length s) 3 then read_hex 0 (b ∷ s) else none

has_dot : Text → Bool
has_dot [] = false
has_dot (b ∷ s) = (b == b'.') || has_dot s

-- The groups; the last one may be written as four decimal parts if `tail` says so.
hextets : Bool → List Text → Option (List ℕ)
unfolding hextet has_dot v4_parts
hextets tail [] = some []
hextets tail (t ∷ []) =
    if tail && has_dot t
    then bind (v4_parts (split b'.' t)) (λ v. some ((v / 2 ^ 16) ∷ (v % 2 ^ 16) ∷ []))
    else bind (hextet t) λ g. some (g ∷ [])
hextets tail (t ∷ u ∷ ts) = bind (hextet t) λ g. bind (hextets tail (u ∷ ts)) λ gs. some (g ∷ gs)

-- The groups of one side of `::`, which may be empty.
side : Bool → Text → Option (List ℕ)
unfolding hextets
side tail [] = some []
side tail (b ∷ s) = hextets tail (split b':' (b ∷ s))

-- What stands before and behind the first `::`.
ellipsis : Text → Option (Text × Text)
ellipsis [] = none
ellipsis (b ∷ []) = none
ellipsis (b ∷ c ∷ s) =
    let rest = ellipsis (c ∷ s) in
    if (b == b':') && (c == b':')
    then some ([], s)
    else elim rest [ none ↦ none | some (l, r) ↦ some (b ∷ l, r) ]

abbrev zeros : ℕ → List ℕ
zeros zero = []
zeros (suc n) = 0 ∷ zeros n

value_of : ℕ → List ℕ → ℕ
value_of acc [] = acc
value_of acc (g ∷ gs) = value_of (acc * 2 ^ 16 + g) gs

parse_v6 : Text → Option ℕ
unfolding ellipsis side value_of
parse_v6 s = elim (ellipsis s) [
  | none ↦ bind (side true s) (λ gs. if length gs == 8 then some (value_of 0 gs) else none)
  | some (l, r) ↦ bind (side false l) λ ls. bind (side true r) λ rs.
      if ltb (length ls + length rs) 8
      then some (value_of 0 (ls ++ (zeros (8 - length ls - length rs) ++ rs)))
      else none
]

-- Whether the first of `.` and `:` is the dot; `none` if neither occurs.
first_mark : Text → Option Bool
first_mark [] = none
first_mark (b ∷ s) =
    let rest = first_mark s in
    if b == b'.' then some true else if b == b':' then some false else rest

-- By the first mark.
addr_of : Option Bool → Text → Option Addr
unfolding parse_v6 v4_parts split
addr_of none s = none
addr_of (some true) s =
    bind (v4_parts (split b'.' s)) λ v. some (record { value = 0xffff * 2 ^ 32 + v; four = true })
addr_of (some false) s = bind (parse_v6 s) λ v. some (record { value = v; four = false })

unfoldable pub parse_addr : Text → Option Addr
unfolding first_mark addr_of
parse_addr s = addr_of (first_mark s) s

-- `net.ParseIP`; `none` is nil.
unfoldable pub parse_ip : Text → Option ℕ
unfolding parse_addr
parse_ip s = bind (parse_addr s) λ a. some a.value
