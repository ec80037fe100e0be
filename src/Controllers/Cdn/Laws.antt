-- ===== src/Controllers/Cdn/Laws.antt =====
-- What the handlers of gateways leave behind.
use kloudstack.Base.{
  ◌≡◌, refl, ◌≢◌, ap, ◌∙◌, inl, inr, true, Option, List, [], ◌∷◌, ◌++◌, arith, Bool-cases,
}
use kloudstack.Base.Int.{pos}
use kloudstack.Base.Text.{Text, lit, text_eq, text_eq_iff}
use kloudstack.Base.Result.{Result, ok, err, panic, Action, bind, attempted, logged}
use kloudstack.Api.Cdn.{Upstream, Gateway, HttpRoute}
use kloudstack.Api.Kube.{Selector}
use kloudstack.Controllers.Cdn.{
  Unstructured, Env, uid_key, redis_key, has_upstream, refreshed, same_spec, route_selector, forget,
  update_routes, update_gateway, find_http_routes_by_gateway_name, on_update_gateway,
  on_delete_gateway,
}

-- The name is that of an upstream of the list.
abbrev pub IsUpstream : Text → List Upstream → Type 0
IsUpstream name upstreams =
    (before : List Upstream) × (u : Upstream) × (rest : List Upstream) × (upstreams
      ≡ before ++ (u ∷ rest))
    × (name ≡ u.name)

has_upstream-IsUpstream :
    (upstreams : List Upstream) (name : Text)
    → has_upstream upstreams name ≡ true
    → IsUpstream name upstreams
has_upstream-IsUpstream [] name e = absurd (cc)
has_upstream-IsUpstream (u ∷ us) name e = elim (Bool-cases (text_eq name u.name)) [
  | inl same ↦ ([], u, us, refl, (text_eq_iff name u.name).0 same)
  | inr differs ↦
      let (b, v, r, p, q) = has_upstream-IsUpstream us name (ground arith) in
      (u ∷ b, v, r, ap (λ (l : List Upstream). u ∷ l) p, q)
]

IsUpstream-has_upstream :
    (upstreams : List Upstream) (name : Text)
    → IsUpstream name upstreams
    → has_upstream upstreams name ≡ true
IsUpstream-has_upstream upstreams name (before, u, rest, split, same) = go before upstreams split
  where
    go : (before ups : List Upstream) → ups ≡ before ++ (u ∷ rest) → has_upstream ups name ≡ true
    go [] ups e = rw (e, (text_eq_iff name u.name).1 same) refl
    go (b ∷ before) ups e = elim (Bool-cases (text_eq name b.name)) [
      | inl hit ↦ rw (e, hit) refl
      | inr miss ↦ rw (e, miss) (go before (before ++ (u ∷ rest)) refl)
    ]

-- A route that is updated with its gateway keeps its upstream if the gateway has one of that name, and
-- names none otherwise. It stays the same object, at the same version, and nothing else of its spec is
-- changed.
pub refreshed-upstream :
    (upstreams : List Upstream) (route : HttpRoute) (now : Text)
    → (IsUpstream route.spec.upstream_name upstreams
        → (refreshed upstreams route now).spec ≡ route.spec)
      × ((¬ IsUpstream route.spec.upstream_name upstreams)
          → (refreshed upstreams route now).spec ≡ record (route.spec) { upstream_name = [] })
      × ((refreshed upstreams route now).meta.name ≡ route.meta.name)
      × ((refreshed upstreams route now).meta.namespace ≡ route.meta.namespace)
      × ((refreshed upstreams route now).meta.resource_version ≡ route.meta.resource_version)
unfolding refreshed
refreshed-upstream upstreams route now = (
  λ is. rw (IsUpstream-has_upstream upstreams route.spec.upstream_name is) refl,
  λ lacks. elim (Bool-cases (has_upstream upstreams route.spec.upstream_name)) [
    | inl has ↦ absurd (lacks (has_upstream-IsUpstream upstreams route.spec.upstream_name has))
    | inr lacks' ↦ rw lacks' refl
  ],
  refl,
  refl,
  refl,
)

keeps-bind :
    {W A B X : Type 0} (look : W → X) (m : Result A × W) (k : A → W → Result B × W)
    → ((a : A) (v : W) → look (k a v).1 ≡ look v)
    → look (bind m k).1 ≡ look m.1
keeps-bind look (ok a, v) k h = h a v
keeps-bind look (err x, v) k h = refl
keeps-bind look (panic, v) k h = refl

keeps-attempted :
    {W A X : Type 0} (look : W → X) (m : Result A × W) → look (attempted m).1 ≡ look m.1
keeps-attempted look (ok a, v) = refl
keeps-attempted look (err x, v) = refl
keeps-attempted look (panic, v) = refl

keeps-logged :
    {W A X : Type 0} (look : W → X) (m : Action W A) (w : W) → look (logged m w).1 ≡ look (m w).1
keeps-logged look m w =
    keeps-bind look (attempted (m w)) (λ _ v. (ok tt, v)) (λ a v. refl) ∙ keeps-attempted look (m w)

module _ {W : Type 0} (env : Env W) where
  -- What is read of a gateway's key, with what is relied on of Redis and of the deletion of routes:
  -- other keys are left alone.
  pub record LooksAt (key : Text) (look : W → Option Text) : Type 0 where
    pub del_keeps : (k : Text) (w : W) → k ≢ key → look (env.redis.del k w).1 ≡ look w
    pub publish_keeps : (c m : Text) (w : W) → look (env.redis.publish c m w).1 ≡ look w
    pub routes_keep :
        (namespace : Text) (sel : Selector) (w : W)
        → look (env.http_routes.delete_all_of namespace sel w).1 ≡ look w

  forget-keeps :
      (key : Text) (look : W → Option Text)
      → LooksAt key look
      → (k : Text) → k ≢ key
      → (w : W) → look (forget env k w).1 ≡ look w
  unfolding forget
  forget-keeps key look laws k other w =
      keeps-bind look (logged (env.redis.del k) w)
        (λ _. logged (env.redis.publish (lit "invalidate_gateway_cache") k))
        (λ _ v.
          keeps-logged look (env.redis.publish (lit "invalidate_gateway_cache") k) v
          ∙ laws.publish_keeps (lit "invalidate_gateway_cache") k v)
      ∙ keeps-logged look (env.redis.del k) w
      ∙ laws.del_keeps k w other

  -- The data of a gateway with a domain of its own, which stand under the domain, are still there
  -- when the gateway is deleted.
  pub on_delete_gateway-keeps :
      (g : Gateway) (u : Unstructured) (look : W → Option Text) (w : W)
      → LooksAt (redis_key g env.cdn_hostname) look
      → uid_key u.uid env.cdn_hostname ≢ redis_key g env.cdn_hostname
      → look (on_delete_gateway env u w).1 ≡ look w
  unfolding on_delete_gateway
  on_delete_gateway-keeps g u look w laws other =
      let key = uid_key u.uid env.cdn_hostname in
      keeps-bind look
        (logged (env.http_routes.delete_all_of u.namespace (route_selector env u.name)) w)
        (λ _. forget env key) (λ _ v. forgotten v)
      ∙ keeps-logged look (env.http_routes.delete_all_of u.namespace (route_selector env u.name)) w
      ∙ laws.routes_keep u.namespace (route_selector env u.name) w
    where
      forgotten : (v : W) → look (forget env (uid_key u.uid env.cdn_hostname) v).1 ≡ look v
      forgotten v = forget-keeps (redis_key g env.cdn_hostname) look laws _ other v

  -- An update of a gateway without routes ends at once: the certificate of a new domain is not
  -- made, and that of the old one is not deleted.
  pub on_update_gateway-no_routes :
      (prev obj : Unstructured) (w : W) {g : Gateway}
      → env.gateways.get obj.namespace obj.name w ≡ ok g
      → env.http_routes.list (route_selector env g.meta.name) (pos 0) w ≡ ok []
      → on_update_gateway env prev obj w ≡ (ok tt, w)
  unfolding on_update_gateway update_gateway find_http_routes_by_gateway_name update_routes
  on_update_gateway-no_routes prev obj w got listed =
      elim (Bool-cases (same_spec prev.spec obj.spec)) [
        | inl same ↦ rw same refl
        | inr differs ↦ rw (differs, got, listed) refl
      ]
