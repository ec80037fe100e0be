-- ===== src/Helpers/Laws.antt =====
-- The counts that the program stores are read back unchanged, and the names of launcher pods give
-- back the name of their machine.
use kloudstack.Base.{
  ℕ, ◌≡◌, refl, ap, ◌∙◌, ◌≢◌, inl, inr, Option, none, some, [], ◌∷◌, ◌++◌, arith, take, length,
  Bool-cases,
}
use kloudstack.Base.Int.{ℤ}
use kloudstack.Base.Text.{Text, has_prefix, trim_prefix, last_index, text_eq_iff}
use kloudstack.Base.Text.Laws.{
  has_prefix-append, trim_prefix-append, last_index-append, last_index-parts, Lacks,
  has_prefix-split,
}
use kloudstack.Base.Decimal.{format_int}
use kloudstack.Base.Decimal.Laws.{set_string-format_int, format_int-ne-nil}
use kloudstack.Helpers.{string_to_big_int, launcher, before_dash, extract_vm_name}

-- Reading the decimal text of an integer gives the integer back, whatever its sign and size.
pub string_to_big_int-format_int : (z : ℤ) → string_to_big_int (format_int z) ≡ z
unfolding string_to_big_int
string_to_big_int-format_int z =
    ground (arith, set_string-format_int z, text_eq_iff (format_int z) [], format_int-ne-nil z)

take-append : (s t : Text) → take (length s) (s ++ t) ≡ s
take-append [] t = refl
take-append (b ∷ s) t = ap (λ (u : Text). b ∷ u) (take-append s t)

before_dash-append :
    (vm suffix : Text) → Lacks b'-' suffix → before_dash (vm ++ (b'-' ∷ suffix)) ≡ vm
before_dash-append vm suffix h =
    unfold before_dash in
    rw (last_index-append b'-' vm suffix h, before_dash) (take-append vm (b'-' ∷ suffix))

before_dash-form :
    (name : Text)
    → before_dash name ≢ []
    → (suffix : Text) × (name ≡ before_dash name ++ (b'-' ∷ suffix)) × Lacks b'-' suffix
before_dash-form name h = go (last_index b'-' name) refl
  where
    go :
        (o : Option ℕ)
        → last_index b'-' name ≡ o
        → (suffix : Text) × (name ≡ before_dash name ++ (b'-' ∷ suffix)) × Lacks b'-' suffix
    go none e = absurd (h (unfold before_dash in rw (e, before_dash)))
    go (some i) e =
        let (t, p, q) = last_index-parts b'-' i name e in
        (t, (unfold before_dash in rw (e, before_dash) p), q)

-- A launcher pod's name is the prefix, the machine's name, a dash and a suffix with no dash: the
-- machine's name, which may have dashes itself, comes out whole.
pub extract_vm_name-launcher :
    (vm suffix : Text)
    → Lacks b'-' suffix
    → extract_vm_name (launcher ++ (vm ++ (b'-' ∷ suffix))) ≡ vm
unfolding extract_vm_name
extract_vm_name-launcher vm suffix h =
    rw (has_prefix-append launcher _, trim_prefix-append launcher _)
      (before_dash-append vm suffix h)

-- A name that comes out is not empty only if the pod's name has that form.
pub extract_vm_name-form :
    (pod : Text)
    → extract_vm_name pod ≢ []
    → (suffix : Text) × (pod ≡ launcher ++ (extract_vm_name pod ++ (b'-' ∷ suffix)))
      × Lacks b'-' suffix
unfolding extract_vm_name
extract_vm_name-form pod h = elim (Bool-cases (has_prefix pod launcher)) [
  | inl e ↦
      let t0 : pod ≡ launcher ++ trim_prefix pod launcher =
        unfold trim_prefix in rw e (has_prefix-split pod launcher e) in
      let (t, p, q) = before_dash-form (trim_prefix pod launcher) (λ z. h (rw e z)) in
      (t, rw e (t0 ∙ ap (λ (u : Text). launcher ++ u) p), q)
  | inr e ↦ absurd (h (rw e))
]
