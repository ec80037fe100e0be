-- ===== src/K8s/Tests.antt =====
-- A scheme as a list of kinds.
use mathlib.Core.Path.{subst}
use kloudstack.Base.{◌≡◌, refl, ◌∙◌, ap, Bool, false, ◌||◌, ◌&&◌, List, [], ◌∷◌, ◌++◌, any, arith}
use kloudstack.Base.Text.{Text, lit, text_eq}
use kloudstack.Base.Text.Laws.{text_eq_refl}
use kloudstack.K8s.Scheme.{
  GroupVersion, network_group_version, Schemes, Registers, network_builder, network_init,
  network_kinds, scheme_with, program_scheme, program_scheme-kinds,
}

abbrev same_version : GroupVersion → GroupVersion → Bool
same_version g h = text_eq g.group h.group && text_eq g.version h.version

abbrev known_in : List (GroupVersion × Text) → GroupVersion → Text → Bool
known_in s g kind = any (λ k. same_version g k.0 && text_eq kind k.1) s

abbrev kinds_of : GroupVersion → List Text → List (GroupVersion × Text)
kinds_of g [] = []
kinds_of g (k ∷ ks) = (g, k) ∷ kinds_of g ks

abbrev added_kinds : List Text
added_kinds = lit "WatchEvent" ∷ lit "ListOptions" ∷ []

-- A builder has its version and its kinds.
abbrev listed : Schemes (GroupVersion × List Text) (List (GroupVersion × Text))
listed = record {
  builder = λ gv. (gv, []);
  register = λ kinds b. (b.0, b.1 ++ (kinds ++ added_kinds));
  meta_kinds = added_kinds;
  empty = [];
  add_to_scheme = λ b s. kinds_of b.0 b.1 ++ s;
  add_core = λ s. s;
  add_kubevirt = λ s. s;
  version_of = λ b. b.0;
  has = λ b g kind. known_in (kinds_of b.0 b.1) g kind;
  recognizes = known_in;
}

any_append :
    (p : GroupVersion × Text → Bool) (xs ys : List (GroupVersion × Text))
    → any p (xs ++ ys) ≡ any p xs || any p ys
any_append p [] ys = refl
any_append p (x ∷ xs) ys = ground (arith, any_append p xs ys)

kinds_append :
    (g : GroupVersion) (xs ys : List Text) → kinds_of g (xs ++ ys) ≡ kinds_of g xs ++ kinds_of g ys
kinds_append g [] ys = refl
kinds_append g (x ∷ xs) ys =
    ap (λ (l : List (GroupVersion × Text)). (g, x) ∷ l) (kinds_append g xs ys)

known_own :
    (g : GroupVersion) (kinds : List Text) (kind : Text)
    → known_in (kinds_of g kinds) g kind ≡ any (text_eq kind) kinds
known_own g [] kind = refl
known_own g (k ∷ kinds) kind =
    ground (arith, known_own g kinds kind, text_eq_refl g.group, text_eq_refl g.version)

any_either : (p : Text → Bool) (xs ys : List Text) → any p (xs ++ ys) ≡ any p xs || any p ys
any_either p [] ys = refl
any_either p (x ∷ xs) ys = ground (arith, any_either p xs ys)

registered :
    (g : GroupVersion) (had kinds : List Text) (kind : Text)
    → known_in (kinds_of g (had ++ (kinds ++ added_kinds))) g kind
      ≡ known_in (kinds_of g had) g kind
        || (any (text_eq kind) kinds || any (text_eq kind) added_kinds)
registered g had kinds kind =
    ap (λ (l : List (GroupVersion × Text)). known_in l g kind)
      (kinds_append g had (kinds ++ added_kinds))
    ∙ any_append (λ k. same_version g k.0 && text_eq kind k.1) (kinds_of g had)
        (kinds_of g (kinds ++ added_kinds))
    ∙ ap (λ (x : Bool). known_in (kinds_of g had) g kind || x)
        (known_own g (kinds ++ added_kinds) kind ∙ any_either (text_eq kind) kinds added_kinds)

listed-Registers : Registers listed
listed-Registers = record {
  has-builder = λ gv g kind. refl;
  version_of-builder = λ gv. refl;
  version_of-register = λ kinds b. refl;
  has-register = λ kinds b gv kind own.
      subst
        (λ (g : GroupVersion).
          known_in (kinds_of b.0 (b.1 ++ (kinds ++ added_kinds))) g kind
          ≡ known_in (kinds_of b.0 b.1) g kind
            || (any (text_eq kind) kinds || any (text_eq kind) added_kinds))
        own (registered b.0 b.1 kinds kind);
  recognizes-empty = λ g kind. refl;
  recognizes-add =
      λ b s g kind. any_append (λ k. same_version g k.0 && text_eq kind k.1) (kinds_of b.0 b.1) s;
  recognizes-core = λ s kind. refl;
  recognizes-kubevirt = λ s kind. refl;
}

not_added : any (text_eq (lit "ClusterIP")) added_kinds ≡ false
unfolding text_eq
not_added = refl

program_scheme-kinds_example :
    (listed.recognizes (program_scheme listed) network_group_version (lit "ClusterIP") ≡ false)
    × (listed.recognizes
          (scheme_with listed (network_init listed (network_builder listed)))
          network_group_version
          (lit "ClusterIP")
        ≡ any (text_eq (lit "ClusterIP")) network_kinds)
program_scheme-kinds_example =
    program_scheme-kinds listed listed-Registers (lit "ClusterIP") not_added
