-- ===== src/Base/Decimal/Laws.antt =====
-- Reading what was printed gives the number back.
use Prim.Native.Nat.{ℕ, zero, suc, ◌+◌, ◌-◌, ◌*◌, ◌/◌, ◌%◌, ◌≤◌, ◌<◌}
use mathlib.Core.Path.{◌≡◌, ◌∙◌, subst, sym, ap}
use mathlib.Core.Bool.{false}
use kloudstack.Base.Lists.{All, All-append}
use mathlib.Core.Logic.{◌≢◌, inl, inr}
use mathlib.Core.Option
use mathlib.Core.Option.{Option, none, some}
use mathlib.Core.List.{[], ◌∷◌, ◌++◌}
use native.Mathlib.Omega.{arith}
use kloudstack.Base.Bools.{ltb, Bool-cases}
use kloudstack.Base.Int.{ℤ, pos, negsuc}
use kloudstack.Base.Text.{Text}
use kloudstack.Base.Decimal.{
  is_digit, digits, format_nat, format_int, read_digits, magnitude, set_string,
}

read_digits-append :
    (acc d m : ℕ) (s : Text)
    → d < 10
    → read_digits acc s ≡ some m
    → read_digits acc (s ++ ((b'0' + d) ∷ [])) ≡ some (m * 10 + d)
unfolding read_digits
read_digits-append acc d m [] h e = ground arith
read_digits-append acc d m (b ∷ s) h e =
    ground (arith, read_digits-append (acc * 10 + (b - b'0')) d m s)

read_digits-digits : (f n : ℕ) → n < f → read_digits 0 (digits f n) ≡ some n
unfolding digits
read_digits-digits zero n h = elim h [ ]
read_digits-digits (suc f) n h = elim (Bool-cases (ltb n 10)) [
  | inl small ↦ rw small (unfold read_digits in ground arith)
  | inr large ↦ rw large (
      read_digits-append 0 (n % 10) (n / 10) (digits f (n / 10)) (omega arith)
        (read_digits-digits f (n / 10) (ground arith))
      ∙ ground arith)
]

-- A digit comes first.
abbrev pub StartsWithDigit : Text → Type 0
StartsWithDigit [] = ⊥
StartsWithDigit (b ∷ s) = (b'0' ≤ b) × (b ≤ b'9')

StartsWithDigit-append : (s t : Text) → StartsWithDigit s → StartsWithDigit (s ++ t)
StartsWithDigit-append [] t h = absurd h
StartsWithDigit-append (b ∷ s) t h = h

digits-StartsWithDigit : (f n : ℕ) → n < f → StartsWithDigit (digits f n)
unfolding digits
digits-StartsWithDigit zero n h = elim h [ ]
digits-StartsWithDigit (suc f) n h = elim (Bool-cases (ltb n 10)) [
  | inl small ↦ rw small (ground arith)
  | inr large ↦
      rw large (StartsWithDigit-append _ _ (digits-StartsWithDigit f (n / 10) (ground arith)))
]

pub format_nat-StartsWithDigit : (n : ℕ) → StartsWithDigit (format_nat n)
unfolding format_nat
format_nat-StartsWithDigit n = digits-StartsWithDigit (suc n) n (omega arith)

magnitude-format_nat : (n : ℕ) → magnitude (format_nat n) ≡ some n
magnitude-format_nat n =
    go (format_nat n) (format_nat-StartsWithDigit n)
      (unfold format_nat in read_digits-digits (suc n) n (omega arith))
  where
    go : (s : Text) → StartsWithDigit s → read_digits 0 s ≡ some n → magnitude s ≡ some n
    go [] d e = absurd d
    go (b ∷ s) d e = unfold magnitude in e

set_string-StartsWithDigit :
    (s : Text) → StartsWithDigit s → set_string s ≡ Option.map pos (magnitude s)
unfolding set_string
set_string-StartsWithDigit [] h = absurd h
set_string-StartsWithDigit (b ∷ s) h = ground arith

pub set_string-format_int : (z : ℤ) → set_string (format_int z) ≡ some z
unfolding format_int
set_string-format_int (pos n) =
    rw (set_string-StartsWithDigit _ (format_nat-StartsWithDigit n), magnitude-format_nat)
set_string-format_int (negsuc n) =
    unfold set_string in rw (magnitude-format_nat (suc n)) (ground arith)

pub format_int-ne-nil : (z : ℤ) → format_int z ≢ []
unfolding format_int
format_int-ne-nil (pos n) = λ e. subst StartsWithDigit e (format_nat-StartsWithDigit n)
format_int-ne-nil (negsuc n) = λ e. cc

pub format_nat-injective : (m n : ℕ) → format_nat m ≡ format_nat n → m ≡ n
format_nat-injective m n e =
    Option.some-injective m n
      (sym (magnitude-format_nat m) ∙ ap magnitude e ∙ magnitude-format_nat n)

-- A byte that is no digit.
All-digits : (c f n : ℕ) → is_digit c ≡ false → All (λ b. b ≢ c) (digits f n)
unfolding digits
All-digits c zero n h = tt
All-digits c (suc f) n h = elim (Bool-cases (ltb n 10)) [
  | inl small ↦ rw small ((λ e. absurd (ground arith)), tt)
  | inr large ↦ rw large (
      All-append (λ b. b ≢ c) (digits f (n / 10)) _ (All-digits c f (n / 10) h)
        ((λ e. absurd (ground arith)), tt))
]

pub All-format_nat : (c n : ℕ) → is_digit c ≡ false → All (λ b. b ≢ c) (format_nat n)
unfolding format_nat
All-format_nat c n h = All-digits c (suc n) n h
