-- ===== src/Base/Text.antt =====
-- Go strings as lists of bytes, with the functions of package strings that the program calls,
-- each at the one-byte separators that it calls them with.
pub mod Laws
use Prim.Native.Nat.{ℕ, suc, ◌+◌}
use Prim.Native.Char.{code}
use Prim.Native.String.{String}
use mathlib.Core.Path.{◌≡◌, refl}
use mathlib.Core.Logic.{◌↔◌}
use mathlib.Core.Bool.{Bool, true, false, ◌&&◌}
use mathlib.Core.Option.{Option, none, some}
use mathlib.Core.List.{List, [], ◌∷◌, ◌++◌, map, reverse}
use native.Mathlib.Omega.{arith}
use kloudstack.Base.Bools.{leb, ◌==◌, if◌then◌else◌}
use kloudstack.Base.Lists.{length, drop}

abbrev pub Text : Type 0
Text = List ℕ

-- A literal's bytes; all literals here are ASCII.
abbrev pub lit : String → Text
lit String.[] = []
lit (String.◌∷◌ c s) = code c ∷ lit s

-- `%q`, of text with nothing to escape.
abbrev pub quoted : Text → Text
quoted s = b'"' ∷ s ++ (b'"' ∷ [])

unfoldable pub text_eq : Text → Text → Bool
text_eq [] [] = true
text_eq [] (b ∷ t) = false
text_eq (a ∷ s) [] = false
text_eq (a ∷ s) (b ∷ t) = (a == b) && text_eq s t

pub text_eq_iff : (s t : Text) → (text_eq s t ≡ true) ↔ (s ≡ t)
unfolding text_eq
text_eq_iff [] [] = ((λ _. refl), (λ _. refl))
text_eq_iff [] (b ∷ t) = ((λ h. cc), (λ h. cc))
text_eq_iff (a ∷ s) [] = ((λ h. cc), (λ h. cc))
text_eq_iff (a ∷ s) (b ∷ t) =
    ((λ h. ground (arith, text_eq_iff s t)), (λ h. ground (arith, text_eq_iff s t)))

-- `strings.HasPrefix`
unfoldable pub has_prefix : Text → Text → Bool
has_prefix s [] = true
has_prefix [] (c ∷ p) = false
has_prefix (b ∷ s) (c ∷ p) = (b == c) && has_prefix s p

-- `strings.HasSuffix`
unfoldable pub has_suffix : Text → Text → Bool
unfolding has_prefix
has_suffix s p = has_prefix (reverse s) (reverse p)

-- `strings.TrimPrefix`
unfoldable pub trim_prefix : Text → Text → Text
unfolding has_prefix
trim_prefix s p = if has_prefix s p then drop (length p) s else s

-- `strings.LastIndex` of a byte; `none` is -1.
unfoldable pub last_index : ℕ → Text → Option ℕ
last_index c [] = none
last_index c (b ∷ s) = elim (last_index c s) [
  | some i ↦ some (suc i)
  | none ↦ if b == c then some 0 else none
]

-- The first piece of a split, with one more byte.
abbrev pub extend : ℕ → List Text → List Text
extend b [] = (b ∷ []) ∷ []
extend b (t ∷ ts) = (b ∷ t) ∷ ts

-- `strings.Split` at a byte.
unfoldable pub split : ℕ → Text → List Text
split c [] = [] ∷ []
split c (b ∷ s) = let rest = split c s in if b == c then [] ∷ rest else extend b rest

-- `strings.Join` with a byte.
unfoldable pub join : ℕ → List Text → Text
join c [] = []
join c (t ∷ []) = t
join c (t ∷ u ∷ ts) = t ++ (c ∷ join c (u ∷ ts))

-- `strings.ReplaceAll` of a byte.
unfoldable pub replace_all : ℕ → Text → Text → Text
replace_all c new [] = []
replace_all c new (b ∷ s) =
    let rest = replace_all c new s in if b == c then new ++ rest else b ∷ rest

abbrev pub lower_byte : ℕ → ℕ
lower_byte b = if leb b'A' b && leb b b'Z' then b + 32 else b

-- `strings.ToLower`, of ASCII text.
unfoldable pub to_lower : Text → Text
to_lower = map lower_byte
