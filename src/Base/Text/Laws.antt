-- ===== src/Base/Text/Laws.antt =====
-- Laws of the functions on strings.
use Prim.Native.Nat.{ℕ, suc}
use mathlib.Core.Path.{◌≡◌, refl, ap}
use mathlib.Core.Logic.{◌≢◌, inl, inr}
use mathlib.Core.Bool.{true}
use mathlib.Core.Option.{none, some}
use mathlib.Core.List.{List, [], ◌∷◌, ◌++◌, reverse, reverse-append}
use native.Mathlib.Omega.{arith}
use kloudstack.Base.Bools.{Option-cases}
use kloudstack.Base.Lists.{length, take, drop, All}
use kloudstack.Base.Text.{
  Text, text_eq, text_eq_iff, has_prefix, has_suffix, trim_prefix, last_index, extend, split, join,
  lower_byte, to_lower,
}

pub text_eq_refl : (s : Text) → text_eq s s ≡ true
text_eq_refl s = (text_eq_iff s s).1 refl

pub has_prefix-append : (p s : Text) → has_prefix (p ++ s) p ≡ true
unfolding has_prefix
has_prefix-append [] s = refl
has_prefix-append (c ∷ p) s = ground (arith, has_prefix-append p s)

pub drop-append : (p s : Text) → drop (length p) (p ++ s) ≡ s
drop-append [] s = refl
drop-append (c ∷ p) s = drop-append p s

pub trim_prefix-append : (p s : Text) → trim_prefix (p ++ s) p ≡ s
unfolding trim_prefix
trim_prefix-append p s = rw has_prefix-append (drop-append p s)

pub has_prefix-split : (s p : Text) → has_prefix s p ≡ true → s ≡ p ++ drop (length p) s
unfolding has_prefix
has_prefix-split s [] h = refl
has_prefix-split [] (c ∷ p) h = cc
has_prefix-split (b ∷ s) (c ∷ p) h = ground (arith, has_prefix-split s p)

-- The byte does not occur.
abbrev pub Lacks : ℕ → Text → Type 0
Lacks c = All (λ b. b ≢ c)

pub last_index-none : (c : ℕ) (s : Text) → Lacks c s → last_index c s ≡ none
unfolding last_index
last_index-none c [] h = refl
last_index-none c (b ∷ s) h = ground (arith, last_index-none c s h.1)

pub last_index-append :
    (c : ℕ) (s t : Text) → Lacks c t → last_index c (s ++ (c ∷ t)) ≡ some (length s)
unfolding last_index
last_index-append c [] t h = ground (arith, last_index-none c t h)
last_index-append c (b ∷ s) t h = rw (last_index-append c s t h, last_index)

pub last_index-Lacks : (c : ℕ) (s : Text) → last_index c s ≡ none → Lacks c s
unfolding last_index
last_index-Lacks c [] h = tt
last_index-Lacks c (b ∷ s) h = elim (Option-cases (last_index c s)) [
  | inl e ↦ (ground arith, last_index-Lacks c s e)
  | inr (i, e) ↦ absurd (ground arith)
]

-- What stands at and behind the last index.
pub last_index-parts :
    (c i : ℕ) (s : Text)
    → last_index c s ≡ some i
    → (t : Text) × (s ≡ take i s ++ (c ∷ t)) × Lacks c t
unfolding last_index
last_index-parts c i [] h = absurd (ground arith)
last_index-parts c i (b ∷ s) h = elim (Option-cases (last_index c s)) [
  | inl e ↦
      let e0 : (b ≡ c) × (0 ≡ i) = (ground arith, ground arith) in
      (s, rw (← e0.1, e0.0), last_index-Lacks c s e)
  | inr (j, e) ↦
      let e1 : suc j ≡ i = ground arith in
      let (t, p, q) = last_index-parts c j s e in (t, rw (← e1) (ap (λ (u : Text). b ∷ u) p), q)
]

join-extend : (c b : ℕ) (ts : List Text) → ts ≢ [] → join c (extend b ts) ≡ b ∷ join c ts
unfolding join
join-extend c b [] h = absurd (h refl)
join-extend c b (t ∷ []) h = refl
join-extend c b (t ∷ u ∷ ts) h = refl

extend-ne-nil : (b : ℕ) (ts : List Text) → extend b ts ≢ []
extend-ne-nil b [] = λ h. cc
extend-ne-nil b (t ∷ ts) = λ h. cc

pub split-ne-nil : (c : ℕ) (s : Text) → split c s ≢ []
unfolding split
split-ne-nil c [] = λ h. cc
split-ne-nil c (b ∷ s) = λ h. ground (arith, extend-ne-nil b (split c s))

join-cons_nil : (c : ℕ) (ts : List Text) → ts ≢ [] → join c ([] ∷ ts) ≡ c ∷ join c ts
unfolding join
join-cons_nil c [] h = absurd (h refl)
join-cons_nil c (t ∷ ts) h = refl

-- Joining what was split gives the string back.
pub join-split : (c : ℕ) (s : Text) → join c (split c s) ≡ s
unfolding split
join-split c [] = unfold join in refl
join-split c (b ∷ s) = ground (
  arith,
  join-split c s,
  split-ne-nil c s,
  join-cons_nil c (split c s),
  join-extend c b (split c s),
)

pub to_lower_idem : (s : Text) → to_lower (to_lower s) ≡ to_lower s
unfolding to_lower
to_lower_idem [] = refl
to_lower_idem (b ∷ s) = ground (arith, to_lower_idem s)

pub to_lower-append : (s t : Text) → to_lower (s ++ t) ≡ to_lower s ++ to_lower t
unfolding to_lower
to_lower-append [] t = refl
to_lower-append (b ∷ s) t = ap (λ (u : Text). lower_byte b ∷ u) (to_lower-append s t)

pub has_suffix-append : (s p : Text) → has_suffix (s ++ p) p ≡ true
unfolding has_suffix
has_suffix-append s p = rw reverse-append (has_prefix-append (reverse p) (reverse s))

pub split-append : (c : ℕ) (s t : Text) → Lacks c s → split c (s ++ (c ∷ t)) ≡ s ∷ split c t
unfolding split
split-append c [] t h = ground arith
split-append c (b ∷ s) t h = ground (arith, split-append c s t h.1)

pub split-Lacks : (c : ℕ) (s : Text) → Lacks c s → split c s ≡ s ∷ []
unfolding split
split-Lacks c [] h = refl
split-Lacks c (b ∷ s) h = ground (arith, split-Lacks c s h.1)
