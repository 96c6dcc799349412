-- ===== src/Gateway.antt =====
-- The objects of the Gateway API and of the Envoy gateway that the routes are made of, with the
-- fields that internal/controllers/entrypoint/ensure_routes.go sets.
use kode_operator.Prelude.{ℕ, String, Option, List}
use kode_operator.Api.{ExtAuth}
use kode_operator.Objects.{Labels}

pub record ParentReference : Type 0 where
  pub name : String
  pub namespace : String

pub record HttpPathMatch : Type 0 where
  pub type : String
  pub value : String

pub record BackendRef : Type 0 where
  pub kind : String
  pub name : String
  pub port : ℕ

-- `RequestRedirect` is the scheme of a redirect filter.
pub record HttpRouteFilter : Type 0 where
  pub type : String
  pub request_redirect : String

pub record HttpRouteRule : Type 0 where
  pub filters : List HttpRouteFilter
  pub matches : List HttpPathMatch
  pub backend_refs : List BackendRef

pub record HttpRoute : Type 0 where
  pub name : String
  pub namespace : String
  pub labels : Labels
  pub parent_refs : List ParentReference
  pub hostnames : List String
  pub rules : List HttpRouteRule

pub record TargetRef : Type 0 where
  pub group : String
  pub kind : String
  pub name : String

pub record SecurityPolicy : Type 0 where
  pub name : String
  pub namespace : String
  pub labels : Labels
  pub target_ref : TargetRef
  pub ext_auth : Option ExtAuth
