-- ===== src/Gatekeeper/Laws.antt =====
-- Whom the webhook lets in.
use kloudstack.Base.{
  ◌≡◌, refl, sym, ap, inl, inr, Bool, true, false, Option, none, some, List, [], ◌∷◌, ◌++◌, arith,
  ◌==◌, Bool-cases,
}
use mathlib.Core.Path.{subst}
use kloudstack.Base.Text.{Text, text_eq, text_eq_iff}
use kloudstack.Base.Result.{
  Reason, not_found, already_exists, other, Result, ok, err, panic, pure, bind, attempted,
}
use kloudstack.Api.Core.{Namespace, named}
use kloudstack.Api.Kube.{Kube}
use kloudstack.Gatekeeper.{
  Review, Response, reviewed, is_numeric, first_segment, in_groups, granted, with_namespace,
  without_namespace, authorize_for, authorize_in, authorize,
}

-- A group of a namespace: its name, or a path that starts with it.
pub data IsGroupOf : Text → Text → Type 0 where
  itself : {namespace : Text} → IsGroupOf namespace namespace
  below : {namespace : Text} (path : Text) → IsGroupOf namespace (namespace ++ (b'/' ∷ path))

first_segment-IsGroupOf : (group : Text) → IsGroupOf (first_segment group) group
unfolding first_segment
first_segment-IsGroupOf [] = itself
first_segment-IsGroupOf (b ∷ s) = elim (Bool-cases (b == b'/')) [
  | inl slash ↦ let same : b ≡ b'/' = ground arith in rw slash (rw same (below s))
  | inr not_slash ↦ rw not_slash (longer (first_segment-IsGroupOf s))
]
  where
    longer : {n g : Text} → IsGroupOf n g → IsGroupOf (b ∷ n) (b ∷ g)
    longer itself = itself
    longer (below path) = below path

-- Some group of the list is one of the namespace.
abbrev pub HasGroup : Text → List Text → Type 0
HasGroup namespace groups =
    (before : List Text) × (group : Text) × (rest : List Text) × (groups ≡ before ++ (group ∷ rest))
    × IsGroupOf namespace group

in_groups-HasGroup :
    (namespace : Text) (groups : List Text)
    → in_groups namespace groups ≡ true
    → HasGroup namespace groups
unfolding in_groups
in_groups-HasGroup namespace [] e = absurd (cc)
in_groups-HasGroup namespace (g ∷ gs) e = elim (Bool-cases (text_eq namespace (first_segment g))) [
  | inl same ↦
      let q : namespace ≡ first_segment g = (text_eq_iff namespace (first_segment g)).0 same in
      ([], g, gs, refl, subst (λ (n : Text). IsGroupOf n g) (sym q) (first_segment-IsGroupOf g))
  | inr differs ↦
      let (b, h, r, p, m) = in_groups-HasGroup namespace gs (ground arith) in
      (g ∷ b, h, r, ap (λ (l : List Text). g ∷ l) p, m)
]

module _ {W : Type 0} (namespaces : Kube W Namespace) where
  created-allowed :
      (allowed : Bool) (m : Result Namespace × W) {reason : Text} {w' : W}
      → bind (bind (attempted m) (λ _. pure tt)) (λ _. pure (reviewed allowed (granted allowed)))
        ≡ (ok (reviewed true reason), w')
      → allowed ≡ true
  created-allowed allowed (ok n, v) e = ground arith
  created-allowed allowed (err x, v) e = ground arith
  created-allowed allowed (panic, v) e = absurd (cc)

  without_namespace-allowed :
      (namespace : Text) (allowed : Bool) (why : Reason) (w : W) {reason : Text} {w' : W}
      → without_namespace namespaces namespace allowed why w ≡ (ok (reviewed true reason), w')
      → allowed ≡ true
  unfolding without_namespace
  without_namespace-allowed namespace allowed not_found w e =
      created-allowed allowed (namespaces.create (record { meta = named [] namespace }) w) e
  without_namespace-allowed namespace allowed already_exists w e = absurd (ground arith)
  without_namespace-allowed namespace allowed other w e = absurd (ground arith)

  with_namespace-allowed :
      (namespace : Text) (allowed : Bool) (r : Result Namespace) (w : W) {reason : Text} {w' : W}
      → bind (attempted (r, w)) (with_namespace namespaces namespace allowed)
        ≡ (ok (reviewed true reason), w')
      → allowed ≡ true
  unfolding with_namespace
  with_namespace-allowed namespace allowed (ok ns) w e = ground arith
  with_namespace-allowed namespace allowed (err x) w e =
      without_namespace-allowed namespace allowed x.reason w e
  with_namespace-allowed namespace allowed panic w e = absurd (cc)

  authorize_in-allowed :
      (namespace : Text) (groups : List Text) (w : W) {reason : Text} {w' : W}
      → authorize_in namespaces namespace groups w ≡ (ok (reviewed true reason), w')
      → (is_numeric namespace ≡ true) × HasGroup namespace groups
  unfolding authorize_in
  authorize_in-allowed namespace groups w e = elim (Bool-cases (is_numeric namespace)) [
    | inl numeric ↦ (
      numeric,
      in_groups-HasGroup namespace groups (
          with_namespace-allowed namespace (in_groups namespace groups)
            (namespaces.get [] namespace w) w (rw numeric at e)),
    )
    | inr not_numeric ↦ absurd (refused (rw not_numeric at e))
  ]
    where
      refused :
          {t reason : Text} {w' : W}
          → ◌≡◌ {A = Result Response × W} (ok (reviewed false t), w) (ok (reviewed true reason), w')
          → ⊥
      refused e = ground arith

  authorize_for-allowed :
      (o : Option Text) (groups : List Text) (w : W) {reason : Text} {w' : W}
      → authorize_for namespaces o groups w ≡ (ok (reviewed true reason), w')
      → (namespace : Text) × (o ≡ some namespace)
        × (is_numeric namespace ≡ true)
        × HasGroup namespace groups
  unfolding authorize_for
  authorize_for-allowed none groups w e = absurd (cc)
  authorize_for-allowed (some namespace) groups w e =
      let (numeric, has) = authorize_in-allowed namespace groups w e in
      (namespace, refl, numeric, has)

  -- Only a review of a resource in a namespace whose name is a number is allowed, and only for a
  -- user with a group that is this namespace or a path below it.
  pub authorize-allowed :
      (review : Review) (w : W) (reason : Text) (w' : W)
      → authorize namespaces (ok review) w ≡ (ok (reviewed true reason), w')
      → (namespace : Text) × (review.resource_namespace ≡ some namespace)
        × (is_numeric namespace ≡ true)
        × HasGroup namespace review.groups
  unfolding authorize
  authorize-allowed review w reason w' e =
      authorize_for-allowed review.resource_namespace review.groups w e

  -- A user who is refused a namespace which is missing creates it all the same: with a numeric
  -- name, the namespace is created before the refusal is sent.
  pub authorize-creates :
      (review : Review) (namespace : Text) (w : W) (message : Text) {ns : Namespace} {w' : W}
      → review.resource_namespace ≡ some namespace
      → is_numeric namespace ≡ true
      → in_groups namespace review.groups ≡ false
      → namespaces.get [] namespace w ≡ err (record { reason = not_found; message = message })
      → namespaces.create (record { meta = named [] namespace }) w ≡ (ok ns, w')
      → authorize namespaces (ok review) w ≡ (ok (reviewed false []), w')
  unfolding authorize authorize_for authorize_in with_namespace without_namespace
  authorize-creates review namespace w message named_in numeric outside missing created =
      rw (named_in, numeric, outside, missing, created)
