-- ===== src/K8s/Scheme.antt =====
-- The scheme of pkg/k8s/scheme.go, with the builders of api/network/v1alpha1 and api/cdn/v1alpha1.
-- Package scheme of controller-runtime is a parameter.
use kloudstack.Base.{
  ◌≡◌, refl, ◌∙◌, ap, Bool, true, false, ◌||◌, List, [], ◌∷◌, any, arith, if◌then◌else◌,
}
use kloudstack.Base.Text.{Text, lit, text_eq}

-- schema.GroupVersion
pub record GroupVersion : Type 0 where
  pub group : Text
  pub version : Text

-- `GroupVersion` of the two packages.
unfoldable pub network_group_version : GroupVersion
network_group_version = record { group = lit "network.kloudstack.ir"; version = lit "v1alpha1" }

unfoldable pub cdn_group_version : GroupVersion
cdn_group_version = record { group = lit "cdn.kloudstack.ir"; version = lit "v1alpha1" }

-- `scheme.Builder` with `Register` and `AddToScheme`, and which kinds a builder and a scheme know.
pub record Schemes (Builder Scheme : Type 0) : Type 0 where
  pub builder : GroupVersion → Builder
  pub register : List Text → Builder → Builder
  pub empty : Scheme
  pub add_to_scheme : Builder → Scheme → Scheme
  -- `AddToScheme` of k8s.io/api/core/v1 and of kubevirt.io/api/core/v1.
  pub add_core : Scheme → Scheme
  pub add_kubevirt : Scheme → Scheme
  -- The kinds that metav1.AddToGroupVersion adds to a group, which `Register` calls too.
  pub meta_kinds : List Text
  pub version_of : Builder → GroupVersion
  pub has : Builder → GroupVersion → Text → Bool
  pub recognizes : Scheme → GroupVersion → Text → Bool

-- What is relied on: a builder knows what was registered with it and, once anything was, the
-- kinds of metav1, and a scheme what was added to it.
pub record Registers {Builder Scheme : Type 0} (sch : Schemes Builder Scheme) : Type 0 where
  pub has-builder : (gv g : GroupVersion) (kind : Text) → sch.has (sch.builder gv) g kind ≡ false
  pub version_of-builder : (gv : GroupVersion) → sch.version_of (sch.builder gv) ≡ gv
  pub version_of-register :
      (kinds : List Text) (b : Builder) → sch.version_of (sch.register kinds b) ≡ sch.version_of b
  pub has-register :
      (kinds : List Text) (b : Builder) (gv : GroupVersion) (kind : Text)
      → sch.version_of b ≡ gv
      → sch.has (sch.register kinds b) gv kind
        ≡ sch.has b gv kind || (any (text_eq kind) kinds || any (text_eq kind) sch.meta_kinds)
  pub recognizes-empty : (g : GroupVersion) (kind : Text) → sch.recognizes sch.empty g kind ≡ false
  pub recognizes-add :
      (b : Builder) (s : Scheme) (g : GroupVersion) (kind : Text)
      → sch.recognizes (sch.add_to_scheme b s) g kind ≡ sch.has b g kind || sch.recognizes s g kind
  pub recognizes-core :
      (s : Scheme) (kind : Text)
      → sch.recognizes (sch.add_core s) network_group_version kind
        ≡ sch.recognizes s network_group_version kind
  pub recognizes-kubevirt :
      (s : Scheme) (kind : Text)
      → sch.recognizes (sch.add_kubevirt s) network_group_version kind
        ≡ sch.recognizes s network_group_version kind

-- The kinds that `Init` of api/network/v1alpha1 registers, one `Register` after the other.
abbrev pub network_kinds : List Text
network_kinds =
    lit "ClusterIPPool"
    ∷ lit "ClusterIPPoolList"
    ∷ lit "ClusterIP"
    ∷ lit "ClusterIPList"
    ∷ lit "LogicalSwitch"
    ∷ []

or_false : (b : Bool) → b || false ≡ b
or_false true = refl
or_false false = refl

or_parts :
    (h a b c d e : Bool)
    → (((h || (if a then true else (if b then true else false)))
          || (if c then true else (if d then true else false)))
        || (if e then true else false))
      ≡ h
        || (if a
            then true
            else (if b
                then true
                else (if c then true else (if d then true else (if e then true else false)))))
or_parts h a b c d e = ground arith

module _ {Builder Scheme : Type 0} (sch : Schemes Builder Scheme) where
  -- `SchemeBuilder` of the two packages, as the variables are initialised.
  pub network_builder : Builder
  network_builder = sch.builder network_group_version

  pub cdn_builder : Builder
  cdn_builder = sch.builder cdn_group_version

  -- `Init` of api/network/v1alpha1 and of api/cdn/v1alpha1.
  pub network_init : Builder → Builder
  network_init b = sch.register (lit "LogicalSwitch" ∷ []) (
      sch.register (lit "ClusterIP" ∷ lit "ClusterIPList" ∷ [])
        (sch.register (lit "ClusterIPPool" ∷ lit "ClusterIPPoolList" ∷ []) b))

  pub cdn_init : Builder → Builder
  cdn_init b = sch.register (lit "WAFRule" ∷ []) (
      sch.register (lit "HTTPRoute" ∷ lit "HTTPRouteList" ∷ [])
        (sch.register (lit "Gateway" ∷ lit "GatewayList" ∷ []) b))

  -- `Scheme`, after `init` of pkg/k8s/scheme.go, with the builder of api/network/v1alpha1 as it is by
  -- then.
  unfoldable pub scheme_with : Builder → Scheme
  scheme_with network = sch.add_kubevirt (sch.add_core (sch.add_to_scheme network sch.empty))

  -- The program calls neither `Init`: the builder is as it was initialised.
  unfoldable pub program_scheme : Scheme
  unfolding scheme_with network_builder
  program_scheme = scheme_with network_builder

  module _ (r : Registers sch) (kind : Text)
      (own_kind : any (text_eq kind) sch.meta_kinds ≡ false) where
    -- A kind that is none of metav1's is in a builder if it was registered.
    has_kind :
        (kinds : List Text) (b : Builder)
        → sch.version_of b ≡ network_group_version
        → sch.has (sch.register kinds b) network_group_version kind
          ≡ sch.has b network_group_version kind || any (text_eq kind) kinds
    has_kind kinds b own =
        r.has-register kinds b network_group_version kind own
        ∙ ap (λ (x : Bool). sch.has b network_group_version kind || (any (text_eq kind) kinds || x))
            own_kind
        ∙ ap (λ (x : Bool). sch.has b network_group_version kind || x)
            (or_false (any (text_eq kind) kinds))

    in_scheme :
        (b : Builder)
        → sch.recognizes (scheme_with b) network_group_version kind
          ≡ sch.has b network_group_version kind
    unfolding scheme_with
    in_scheme b =
        r.recognizes-kubevirt (sch.add_core (sch.add_to_scheme b sch.empty)) kind
        ∙ r.recognizes-core (sch.add_to_scheme b sch.empty) kind
        ∙ r.recognizes-add b sch.empty network_group_version kind
        ∙ ap (λ (x : Bool). sch.has b network_group_version kind || x)
            (r.recognizes-empty network_group_version kind)
        ∙ or_false (sch.has b network_group_version kind)

    in_init :
        (b : Builder)
        → sch.version_of b ≡ network_group_version
        → sch.has (network_init b) network_group_version kind
          ≡ sch.has b network_group_version kind || any (text_eq kind) network_kinds
    unfolding network_init
    in_init b own =
        let b1 = sch.register (lit "ClusterIPPool" ∷ lit "ClusterIPPoolList" ∷ []) b in
        let b2 = sch.register (lit "ClusterIP" ∷ lit "ClusterIPList" ∷ []) b1 in
        let own1 =
          r.version_of-register (lit "ClusterIPPool" ∷ lit "ClusterIPPoolList" ∷ []) b ∙ own in
        let own2 = r.version_of-register (lit "ClusterIP" ∷ lit "ClusterIPList" ∷ []) b1 ∙ own1 in
        let e3 = has_kind (lit "LogicalSwitch" ∷ []) b2 own2 in
        let e2 = has_kind (lit "ClusterIP" ∷ lit "ClusterIPList" ∷ []) b1 own1 in
        let e1 = has_kind (lit "ClusterIPPool" ∷ lit "ClusterIPPoolList" ∷ []) b own in
        rw (e3, e2, e1)
          (or_parts (sch.has b network_group_version kind) (text_eq kind (lit "ClusterIPPool"))
            (text_eq kind (lit "ClusterIPPoolList")) (text_eq kind (lit "ClusterIP"))
            (text_eq kind (lit "ClusterIPList")) (text_eq kind (lit "LogicalSwitch")))

    -- Of a kind that is none of those that metav1 adds to every group, the scheme recognizes those of
    -- api/network/v1alpha1 that were registered with its builder: none as the program is, which does
    -- not call `Init`, and the five of the package if it did.
    pub program_scheme-kinds :
        (sch.recognizes program_scheme network_group_version kind ≡ false)
        × (sch.recognizes (scheme_with (network_init network_builder)) network_group_version kind
            ≡ any (text_eq kind) network_kinds)
    unfolding program_scheme network_builder
    program_scheme-kinds = (
      in_scheme network_builder ∙ r.has-builder network_group_version network_group_version kind,
      in_scheme (network_init network_builder)
          ∙ in_init network_builder (r.version_of-builder network_group_version)
          ∙ ap (λ (x : Bool). x || any (text_eq kind) network_kinds)
              (r.has-builder network_group_version network_group_version kind),
    )
