-- ===== src/Net/Parse/Laws.antt =====
-- The range of an address that is written in four parts.
use kloudstack.Base.{
  ℕ, ◌+◌, ◌*◌, ◌^◌, ◌≤◌, ◌<◌, ◌≡◌, inl, inr, true, false, Option, none, some, List, [], ◌∷◌, arith,
  Bool, not, ◌&&◌, ◌==◌, refl, Bool-cases,
}
use kloudstack.Base.Text.{Text, split}
use kloudstack.Base.Decimal.{read_digits}
use kloudstack.Net.Parse.{
  Addr, bind, in_octet, octet, is_empty, v4_parts, first_mark, parse_v6, addr_of, parse_addr,
}

abbrev IsByte : Option ℕ → Type 0
IsByte none = Unit
IsByte (some n) = n ≤ 255

in_octet-IsByte : (o : Option ℕ) → IsByte (in_octet o)
unfolding in_octet
in_octet-IsByte none = tt
in_octet-IsByte (some n) = ground arith

octet-IsByte : (s : Text) → IsByte (octet s)
unfolding octet
octet-IsByte [] = tt
octet-IsByte (b ∷ s) = elim (Bool-cases ((b == b'0') && not (is_empty s))) [
  | inl e ↦ rw e tt
  | inr e ↦ rw e (in_octet-IsByte (read_digits 0 (b ∷ s)))
]

quad_lt :
    (w x y z : Option ℕ) (v : ℕ)
    → IsByte w
    → IsByte x
    → IsByte y
    → IsByte z
    → bind w (λ w.
      bind x (λ x. bind y (λ y. bind z (λ z. some (w * 2 ^ 24 + x * 2 ^ 16 + y * 2 ^ 8 + z)))))
      ≡ some v
    → v < 2 ^ 32
quad_lt none x y z v p q r s e = absurd (cc)
quad_lt (some a) none y z v p q r s e = absurd (cc)
quad_lt (some a) (some b) none z v p q r s e = absurd (cc)
quad_lt (some a) (some b) (some c) none v p q r s e = absurd (cc)
quad_lt (some a) (some b) (some c) (some d) v p q r s e = ground arith

v4_parts_lt : (ts : List Text) (v : ℕ) → v4_parts ts ≡ some v → v < 2 ^ 32
unfolding v4_parts
v4_parts_lt [] v e = absurd (cc)
v4_parts_lt (a ∷ []) v e = absurd (cc)
v4_parts_lt (a ∷ b ∷ []) v e = absurd (cc)
v4_parts_lt (a ∷ b ∷ c ∷ []) v e = absurd (cc)
v4_parts_lt (a ∷ b ∷ c ∷ d ∷ []) v e =
    quad_lt (octet a) (octet b) (octet c) (octet d) v (octet-IsByte a) (octet-IsByte b)
      (octet-IsByte c) (octet-IsByte d) e
v4_parts_lt (a ∷ b ∷ c ∷ d ∷ x ∷ ts) v e = absurd (cc)

-- The value of an address that was written in four parts.
abbrev pub InFour : Addr → Type 0
InFour a = a.four ≡ true → (0xffff * 2 ^ 32 ≤ a.value) × (a.value < 0x10000 * 2 ^ 32)

from_four :
    (o : Option ℕ)
    → ((v : ℕ) → o ≡ some v → v < 2 ^ 32)
    → {a : Addr} → bind o (λ v. some (record { value = 0xffff * 2 ^ 32 + v; four = true })) ≡ some a
    → InFour a
from_four none b e h = absurd (cc)
from_four (some v) b {a} e h = ground (arith, b v refl)

from_six :
    (o : Option ℕ) {a : Addr}
    → bind o (λ v. some (record { value = v; four = false })) ≡ some a
    → InFour a
from_six none e h = absurd (cc)
from_six (some v) e h = absurd (ground arith)

addr_of-InFour : (m : Option Bool) (s : Text) {a : Addr} → addr_of m s ≡ some a → InFour a
unfolding addr_of
addr_of-InFour none s e = absurd (cc)
addr_of-InFour (some true) s e =
    from_four (v4_parts (split b'.' s)) (λ v. v4_parts_lt (split b'.' s) v) e
addr_of-InFour (some false) s e = from_six (parse_v6 s) e

pub parse_addr-InFour : (s : Text) {a : Addr} → parse_addr s ≡ some a → InFour a
unfolding parse_addr
parse_addr-InFour s e = addr_of-InFour (first_mark s) s e
