-- ===== src/Controllers/Cdn/Tests.antt =====
-- Gateways over a Redis in memory.
use kloudstack.Base.{
  ◌≡◌, refl, ◌≢◌, sym, ◌∙◌, false, Option, none, some, List, [], ◌∷◌, if◌then◌else◌, Bool-cases,
  inl, inr,
}
use kloudstack.Base.Int.{pos}
use kloudstack.Base.Text.{Text, lit, text_eq, text_eq_iff}
use kloudstack.Base.Result.{Result, ok, err, failure}
use kloudstack.Api.Core.{named}
use kloudstack.Api.Cdn.{Upstream, Gateway, HttpRoute}
use kloudstack.Api.Kube.{Kube}
use kloudstack.Controllers.Cdn.{Env, refreshed}
use kloudstack.Controllers.Cdn.Laws.{IsUpstream, refreshed-upstream}

unused : {A : Type 0} → Result A
unused = err (failure (lit "not used"))

abbrev World : Type 0
World = List (Text × Text)

pub value : Text → World → Option Text
value k [] = none
value k ((j, v) ∷ w) = if text_eq j k then some v else value k w

without : Text → World → World
without k [] = []
without k ((j, v) ∷ w) = if text_eq j k then without k w else (j, v) ∷ without k w

abbrev with_gateway : {Obj : Type 0} → Result Obj → Kube World Obj
with_gateway found = record {
  get = λ namespace name w. found;
  list = λ sel limit w. ok [];
  create = λ o w. (unused, w);
  update = λ o w. (unused, w);
  update_status = λ o w. (unused, w);
  patch = λ o w. (unused, w);
  delete = λ namespace name w. (unused, w);
  delete_all_of = λ namespace sel w. (ok tt, w);
}

abbrev gateway : Gateway
gateway = record {
  meta = named (lit "12") (lit "gw");
  spec = record {
    domain = lit "shop.example";
    upstreams = [];
    tls = lit "auto";
    waf_enabled = false;
  };
}

env : Env World
unfolding without
env = record {
  gateways = with_gateway (ok gateway);
  http_routes = with_gateway unused;
  certificates = with_gateway unused;
  redis = record {
    set = λ k v w. (ok tt, (k, v) ∷ w);
    del = λ k w. (ok tt, without k w);
    publish = λ c m w. (ok tt, w);
  };
  marshal = λ g. ok g.meta.name;
  now = λ w. lit "now";
  cdn_hostname = lit "cdn";
  cluster_issuer = lit "issuer";
}

without-keeps : (k key : Text) (w : World) → k ≢ key → value key (without k w) ≡ value key w
unfolding value without
without-keeps k key [] h = refl
without-keeps k key ((j, v) ∷ w) h = elim (Bool-cases (text_eq j k)) [
  | inl same ↦
      let jk = (text_eq_iff j k).0 same in
      elim (Bool-cases (text_eq j key)) [
        | inl hit ↦ absurd (h (sym jk ∙ (text_eq_iff j key).0 hit))
        | inr miss ↦ rw (same, miss) (without-keeps k key w h)
      ]
  | inr differs ↦ elim (Bool-cases (text_eq j key)) [
    | inl hit ↦ rw (differs, hit) refl
    | inr miss ↦ rw (differs, miss) (without-keeps k key w h)
  ]
]

abbrev route : HttpRoute
route = record {
  meta = named (lit "12") (lit "r");
  spec = record {
    gateway = none;
    upstream_name = lit "old";
    host_header = [];
    lb_method = [];
    path = record { kind = []; path = lit "/" };
    cache = record {
      level = [];
      ignore_upstream_cache_settings = false;
      browser_ttl = pos 0;
      edge_ttl = pos 0;
      non_success_ttl = pos 0;
      stale_ttl = pos 0;
      immutable = false;
    };
  };
  status = record { redis_key = [] };
}

abbrev old_upstream : Upstream
old_upstream = record { name = lit "old"; host_header = []; servers = [] }

refreshed-upstream_example :
    (IsUpstream (lit "old") (old_upstream ∷ [])
      → (refreshed (old_upstream ∷ []) route (lit "now")).spec ≡ route.spec)
    × ((¬ IsUpstream (lit "old") (old_upstream ∷ []))
        → (refreshed (old_upstream ∷ []) route (lit "now")).spec
          ≡ record (route.spec) { upstream_name = [] })
    × ((refreshed (old_upstream ∷ []) route (lit "now")).meta.name ≡ route.meta.name)
    × ((refreshed (old_upstream ∷ []) route (lit "now")).meta.namespace ≡ route.meta.namespace)
    × ((refreshed (old_upstream ∷ []) route (lit "now")).meta.resource_version
        ≡ route.meta.resource_version)
refreshed-upstream_example = refreshed-upstream (old_upstream ∷ []) route (lit "now")
