-- ===== src/Api/Cdn.antt =====
-- api/cdn/v1alpha1: gateways, their upstreams and HTTP routes.
use kloudstack.Base.{Bool, Option, List}
use kloudstack.Base.Int.{ℤ}
use kloudstack.Base.Text.{Text}
use kloudstack.Api.Core.{Meta}

pub record UpstreamServer : Type 0 where
  pub host_header : Text
  pub protocol : Text
  pub address : Text
  pub port : ℤ
  pub weight : ℤ
  pub tls_verify : Bool

pub record Upstream : Type 0 where
  pub name : Text
  pub host_header : Text
  pub servers : List UpstreamServer

pub record GatewaySpec : Type 0 where
  pub domain : Text
  pub upstreams : List Upstream
  pub tls : Text
  pub waf_enabled : Bool

pub record Gateway : Type 0 where
  pub meta : Meta
  pub spec : GatewaySpec

pub record LocalObjectReference : Type 0 where
  pub group : Text
  pub kind : Text
  pub name : Text

-- The type `Path`.
pub record RoutePath : Type 0 where
  pub kind : Text
  pub path : Text

pub record HttpRouteSpecCache : Type 0 where
  pub level : Text
  pub ignore_upstream_cache_settings : Bool
  pub browser_ttl : ℤ
  pub edge_ttl : ℤ
  pub non_success_ttl : ℤ
  pub stale_ttl : ℤ
  pub immutable : Bool

-- `none` is a nil reference.
pub record HttpRouteSpec : Type 0 where
  pub gateway : Option LocalObjectReference
  pub upstream_name : Text
  pub host_header : Text
  pub lb_method : Text
  pub path : RoutePath
  pub cache : HttpRouteSpecCache

pub record HttpRouteStatus : Type 0 where
  pub redis_key : Text

pub record HttpRoute : Type 0 where
  pub meta : Meta
  pub spec : HttpRouteSpec
  pub status : HttpRouteStatus

-- `Condition` of a rule of the firewall, with its value as it stands in JSON.
pub record WafCondition : Type 0 where
  pub param : Text
  pub operator : Text
  pub value : Text
  pub param_name : Text

pub record WafAction : Type 0 where
  pub kind : Text
  pub message : Text
  pub code : ℤ
  pub rate : ℤ
  pub burst : ℤ
  pub name : Text
  pub value : Text
  pub expires : ℤ

pub record WafRuleSpec : Type 0 where
  pub cdn_gateway : Text
  pub enabled : Bool
  pub order : ℤ
  pub description : Text
  pub action : WafAction
  pub conditions : List (List WafCondition)

-- `WAFRule`, whose metadata may be a nil pointer.
pub record WafRule : Type 0 where
  pub meta : Option Meta
  pub spec : WafRuleSpec
