-- ===== src/Controllers/Cdn.antt =====
-- pkg/controllers/cdn/gateway.go, over the clients of Kubernetes and Redis. An unstructured object's
-- spec is the text that stands for it.
pub mod Laws
mod Tests
use kloudstack.Base.{
  ℕ, Bool, true, false, not, ◌&&◌, Option, none, some, List, [], ◌∷◌, ◌++◌, any, if◌then◌else◌,
}
use kloudstack.Base.Int.{ℤ, pos}
use kloudstack.Base.Text.{Text, lit, text_eq, replace_all}
use kloudstack.Base.Result.{
  Result, ok, err, panic, Action, pure, crash, reads, ◌>>=◌, attempt, logged,
}
use kloudstack.Api.Core.{Meta, StringMap, insert, named}
use kloudstack.Api.Cdn.{Upstream, Gateway, HttpRoute}
use kloudstack.Api.Kube.{Kube, Selector}

pub record Unstructured : Type 0 where
  pub name : Text
  pub namespace : Text
  pub uid : Text
  -- `getSpec`; `none` is nil.
  pub spec : Option Text
  -- `NestedString` of spec.domain: empty if it is missing.
  pub spec_domain : Text

-- cmapi.Certificate
pub record Certificate : Type 0 where
  pub meta : Meta
  pub secret_name : Text
  pub issuer : Text
  pub dns_names : List Text
  pub secret_annotations : StringMap

pub record Redis (W : Type 0) : Type 0 where
  pub set : Text → Text → Action W (Unit {0})
  pub del : Text → Action W (Unit {0})
  pub publish : Text → Text → Action W (Unit {0})

-- The clients, `json.Marshal` of a gateway's data, the time's text, and the variables CDN_HOSTNAME
-- and CERTMANAGER_CLUSTER_ISSUER.
pub record Env (W : Type 0) : Type 0 where
  pub gateways : Kube W Gateway
  pub http_routes : Kube W HttpRoute
  pub certificates : Kube W Certificate
  pub redis : Redis W
  pub marshal : Gateway → Result Text
  pub now : W → Text
  pub cdn_hostname : Text
  pub cluster_issuer : Text

-- The key of a gateway without a domain, and the only one that is deleted.
unfoldable pub uid_key : Text → Text → Text
uid_key uid hostname = replace_all b'-' [] uid ++ (b'.' ∷ hostname)

-- The key that a gateway's data is set under.
unfoldable pub redis_key : Gateway → Text → Text
redis_key g hostname =
    if text_eq g.spec.domain [] then uid_key g.meta.uid hostname else g.spec.domain

-- The certificate of `createLetsEncryptWildCardCertificate`.
unfoldable pub wildcard_certificate : Text → Text → Text → Text → Certificate
wildcard_certificate namespace name hostname issuer = record {
  meta = named namespace name;
  secret_name = name ++ lit "-tls-cert";
  issuer = issuer;
  dns_names = hostname ∷ (lit "*." ++ hostname) ∷ [];
  secret_annotations = (lit "cdn.kloudstack.ir/hostname", hostname) ∷ [];
}

abbrev pub or_new : Option StringMap → StringMap
or_new none = []
or_new (some m) = m

abbrev pub has_upstream : List Upstream → Text → Bool
has_upstream upstreams name = any (λ u. text_eq name u.name) upstreams

-- The update of a route: an upstream that the gateway no longer has is taken out, and the time is
-- annotated.
unfoldable pub refreshed : List Upstream → HttpRoute → Text → HttpRoute
refreshed upstreams route now = record {
  meta = record (named route.meta.namespace route.meta.name) {
    annotations =
        some (insert (lit "gateway.cdn.kloudstack.ir/updated") now (or_new route.meta.annotations));
    resource_version = route.meta.resource_version;
  };
  spec = record (route.spec) {
    upstream_name =
        if has_upstream upstreams route.spec.upstream_name then route.spec.upstream_name else [];
  };
  status = record { redis_key = [] };
}

abbrev pub same_spec : Option Text → Option Text → Bool
same_spec none none = true
same_spec none (some t) = false
same_spec (some s) none = false
same_spec (some s) (some t) = text_eq s t

abbrev pub json_or_nil : Result Text → Result Text
json_or_nil (ok t) = ok t
json_or_nil (err e) = ok []
json_or_nil panic = panic

module _ {W : Type 0} (env : Env W) where
  -- `createLetsEncryptWildCardCertificate`
  unfoldable pub create_lets_encrypt_wildcard_certificate : Text → Text → Text → Action W (Unit {0})
  unfolding wildcard_certificate
  create_lets_encrypt_wildcard_certificate namespace name hostname =
      env.certificates.create (wildcard_certificate namespace name hostname env.cluster_issuer)
      >>= λ _. pure tt

  -- `deleteLetsEncryptWildCardCertificate`
  unfoldable pub delete_lets_encrypt_wildcard_certificate : Text → Text → Action W (Unit {0})
  delete_lets_encrypt_wildcard_certificate namespace name = env.certificates.delete namespace name

  abbrev pub route_selector : Text → Selector
  route_selector name = (lit "spec.gateway.name", name) ∷ []

  -- `findHttpRoutesByGatewayName`: the routes of all namespaces, without a limit.
  unfoldable pub find_http_routes_by_gateway_name : Text → Text → Action W (List HttpRoute)
  find_http_routes_by_gateway_name name namespace =
      reads (env.http_routes.list (route_selector name) (pos 0))

  pub certify : Gateway → Action W (Unit {0})
  unfolding create_lets_encrypt_wildcard_certificate
  certify g =
      if not (text_eq g.spec.domain []) && text_eq g.spec.tls (lit "auto")
      then logged
          (create_lets_encrypt_wildcard_certificate g.meta.namespace g.meta.name g.spec.domain)
      else pure tt

  pub announce : Gateway → Action W (Unit {0})
  unfolding redis_key certify
  announce g = reads (λ _. json_or_nil (env.marshal g)) >>= λ json.
      (logged (env.redis.set (redis_key g env.cdn_hostname) json) >>= λ _. certify g)

  -- `OnAddGateway`
  unfoldable pub on_add_gateway : Unstructured → Action W (Unit {0})
  unfolding announce
  on_add_gateway obj = logged (reads (env.gateways.get obj.namespace obj.name) >>= announce)

  -- The loop over the routes, which ends at the first error.
  pub refresh_routes : List Upstream → List HttpRoute → Action W (Unit {0})
  unfolding refreshed
  refresh_routes upstreams [] w = (ok tt, w)
  refresh_routes upstreams (route ∷ routes) w =
      (env.http_routes.update (refreshed upstreams route (env.now w)) >>= λ _.
      refresh_routes upstreams routes)
        w

  pub drop_old : Gateway → Text → Action W (Unit {0})
  unfolding delete_lets_encrypt_wildcard_certificate
  drop_old g prev_domain =
      if text_eq prev_domain []
      then pure tt
      else logged (delete_lets_encrypt_wildcard_certificate g.meta.namespace g.meta.name) >>= λ _.
          logged (env.redis.publish (lit "invalidate_gateway_cache") prev_domain)

  pub certify_again : Gateway → Text → Action W (Unit {0})
  unfolding drop_old create_lets_encrypt_wildcard_certificate
  certify_again g prev_domain =
      if not (text_eq g.spec.domain [])
        && (text_eq g.spec.tls (lit "auto") && not (text_eq g.spec.domain prev_domain))
      then drop_old g prev_domain >>= (λ _.
        logged
          (create_lets_encrypt_wildcard_certificate g.meta.namespace g.meta.name g.spec.domain))
      else pure tt

  -- With no routes the update ends.
  pub update_routes : Gateway → Text → List HttpRoute → Action W (Unit {0})
  unfolding refresh_routes certify_again
  update_routes g prev_domain [] = pure tt
  update_routes g prev_domain (route ∷ routes) =
      refresh_routes g.spec.upstreams (route ∷ routes) >>= λ _. certify_again g prev_domain

  pub update_gateway : Text → Gateway → Action W (Unit {0})
  unfolding update_routes find_http_routes_by_gateway_name
  update_gateway prev_domain g =
      find_http_routes_by_gateway_name g.meta.name g.meta.namespace >>= update_routes g prev_domain

  -- `OnUpdateGateway`
  unfoldable pub on_update_gateway : Unstructured → Unstructured → Action W (Unit {0})
  unfolding update_gateway
  on_update_gateway prev obj =
      if same_spec prev.spec obj.spec
      then pure tt
      else logged
          (reads (env.gateways.get obj.namespace obj.name) >>= update_gateway prev.spec_domain)

  pub forget : Text → Action W (Unit {0})
  forget key = logged (env.redis.del key) >>= λ _.
      logged (env.redis.publish (lit "invalidate_gateway_cache") key)

  -- `OnDeleteGateway`
  unfoldable pub on_delete_gateway : Unstructured → Action W (Unit {0})
  unfolding uid_key forget
  on_delete_gateway u =
      logged (env.http_routes.delete_all_of u.namespace (route_selector u.name)) >>= λ _.
      forget (uid_key u.uid env.cdn_hostname)
