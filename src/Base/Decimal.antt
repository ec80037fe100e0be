-- ===== src/Base/Decimal.antt =====
-- Decimal numbers: `big.Int.String` and `big.Int.SetString` at base 10, of package math/big.
pub mod Laws
use Prim.Native.Nat.{ℕ, zero, suc, ◌+◌, ◌-◌, ◌*◌, ◌/◌, ◌%◌}
use mathlib.Core.Bool.{Bool, ◌&&◌}
use mathlib.Core.Option
use mathlib.Core.Option.{Option, none, some}
use mathlib.Core.List.{[], ◌∷◌, ◌++◌}
use kloudstack.Base.Bools.{leb, ltb, ◌==◌, if◌then◌else◌}
use kloudstack.Base.Int.{ℤ, pos, negsuc, sub_ℕ}
use kloudstack.Base.Text.{Text}

abbrev pub is_digit : ℕ → Bool
is_digit b = leb b'0' b && leb b b'9'

-- The digits of `n`, the first one first; the fuel is above `n`.
unfoldable pub digits : ℕ → ℕ → Text
digits zero n = []
digits (suc fuel) n =
    let rest = digits fuel (n / 10) in
    if ltb n 10 then (b'0' + n) ∷ [] else rest ++ ((b'0' + n % 10) ∷ [])

unfoldable pub format_nat : ℕ → Text
unfolding digits
format_nat n = digits (suc n) n

-- `x.String()`
unfoldable pub format_int : ℤ → Text
format_int (pos n) = format_nat n
format_int (negsuc n) = b'-' ∷ format_nat (suc n)

-- The number that a run of digits adds to `acc`; `none` at any other byte.
unfoldable pub read_digits : ℕ → Text → Option ℕ
read_digits acc [] = some acc
read_digits acc (b ∷ s) =
    let rest = read_digits (acc * 10 + (b - b'0')) s in if is_digit b then rest else none

unfoldable pub magnitude : Text → Option ℕ
unfolding read_digits
magnitude [] = none
magnitude (b ∷ s) = read_digits 0 (b ∷ s)

-- `new(big.Int).SetString(s, 10)`: an optional sign and one or more digits, to the end.
unfoldable pub set_string : Text → Option ℤ
unfolding magnitude
set_string [] = none
set_string (b ∷ s) =
    if b == b'-'
    then Option.map (λ n. sub_ℕ 0 n) (magnitude s)
    else if b == b'+'
    then Option.map pos (magnitude s)
    else Option.map pos (magnitude (b ∷ s))
