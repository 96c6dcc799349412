-- ===== src/EntryPoint/Routes.antt =====
-- ensure_routes.go of internal/controllers/entrypoint.
use kode_operator.Prelude.{
  ℕ, String, ◌<>◌, Bool, Option, none, some, List, [], ◌∷◌, ◌++◌, is_some, ◌==◌, ◌&&◌,
  if◌then◌else◌,
}
use kode_operator.Go.{
  Error, Result, ok, err, new_error, wrap, ◌>>=◌, ◌>>◌, pure, if_err, if_failed, if_some,
}
use kode_operator.Condition.{ready, available, progressing, is_true, is_false}
use kode_operator.Api.{Kode, ExtAuth, AuthSpec, SecurityPolicySpec, EntryPointSpec, EntryPoint}
use kode_operator.Api.Names.{get_service_name}
use kode_operator.Gateway.{ParentReference, HttpRouteRule, HttpRoute, SecurityPolicy}
use kode_operator.Env.{
  Env, M, OperationResult, operation_created, operation_updated, operation_none, operation_other,
  normal, put_http_route, put_security_policy, call, get, record_event, change_entry_point,
}
use kode_operator.KodeObject.{get_port, set_condition, update_status}
use kode_operator.EntryPoint.Config.{EntryPointResourceConfig, has_identity_reference, is_https}
use kode_operator.EntryPoint.Object

unfoldable pub construct_parent_reference : EntryPointResourceConfig → ParentReference
construct_parent_reference c = record { name = c.gateway_name; namespace = c.gateway_namespace }

unfoldable pub construct_redirect_rule : EntryPointResourceConfig → List HttpRouteRule
construct_redirect_rule c =
    record {
      filters = record { type = "RequestRedirect"; request_redirect = c.protocol } ∷ [];
      matches = [];
      backend_refs = [];
    }
    ∷ []

unfoldable pub construct_backend_rule : Kode → ℕ → List HttpRouteRule
construct_backend_rule kode port =
    record {
      filters = [];
      matches = record { type = "PathPrefix"; value = "/" } ∷ [];
      backend_refs = record { kind = "Service"; name = get_service_name kode; port = port } ∷ [];
    }
    ∷ []

unfoldable pub construct_http_route_rules :
    Bool → EntryPointResourceConfig → Kode → ℕ → List HttpRouteRule
construct_http_route_rules is_redirect c kode port =
    if is_redirect then construct_redirect_rule c else construct_backend_rule kode port

unfoldable pub construct_route_name : Kode → Bool → String
construct_route_name kode is_redirect =
    if is_redirect then kode.name <> "-tls-redirect" else kode.name

unfoldable pub construct_http_route :
    EntryPointResourceConfig → Kode → Bool → String → Result HttpRoute
construct_http_route c kode is_redirect domain =
    if get_port kode == 0
    then err (new_error "kode port is not set")
    else ok (record {
      name = construct_route_name kode is_redirect;
      namespace = c.namespace;
      labels = c.labels;
      parent_refs = construct_parent_reference c ∷ [];
      hostnames = domain ∷ [];
      rules = construct_http_route_rules is_redirect c kode (get_port kode);
    })

-- Nothing is done for gRPC.
unfoldable pub configure_ext_auth : EntryPointResourceConfig → ExtAuth → ExtAuth
configure_ext_auth c a =
    if has_identity_reference c
    then record {
      headers_to_ext_auth =
          a.headers_to_ext_auth
          ++ "authorization" ∷ "x-forwarded-for" ∷ "x-forwarded-host" ∷ "x-forwarded-proto"
            ∷ "x-auth-user-id" ∷ [];
      headers_to_backend = elim (a.headers_to_backend) [
        | none ↦ none
        | some hs ↦ some (hs ++ "x-auth-user-id" ∷ [])
      ];
    }
    else a

-- `config.EntryPointSpec.AuthSpec.SecurityPolicySpec`, where both pointers are set
unfoldable pub security_policy_of : EntryPointSpec → Option SecurityPolicySpec
security_policy_of spec = elim (spec.auth_spec) [ none ↦ none | some a ↦ a.security_policy_spec ]

-- The ExtAuth of the EntryPoint in memory is replaced: the pointer of the policy is the EntryPoint's.
unfoldable pub set_ext_auth : ExtAuth → EntryPoint → EntryPoint
set_ext_auth x e = record e { spec = record (e.spec) { auth_spec = set_auth e.spec.auth_spec } }
  where
    set_policy : Option SecurityPolicySpec → Option SecurityPolicySpec
    set_policy none = none
    set_policy (some p) = some (record { ext_auth = some x })

    set_auth : Option AuthSpec → Option AuthSpec
    set_auth none = none
    set_auth (some a) = some (record a { security_policy_spec = set_policy a.security_policy_spec })

abbrev pub policy_for : EntryPointResourceConfig → String → Option ExtAuth → SecurityPolicy
policy_for c route_name ext_auth = record {
  name = route_name <> "-security-policy";
  namespace = c.namespace;
  labels = c.labels;
  target_ref = record {
    group = "gateway.networking.k8s.io";
    kind = "HTTPRoute";
    name = route_name;
  };
  ext_auth = ext_auth;
}

unfoldable pub construct_security_policy :
    EntryPointResourceConfig → String → M (Result SecurityPolicy)
construct_security_policy c route_name =
    if_some (security_policy_of c.entry_point_spec)
      (λ spec.
        if_some spec.ext_auth
          (λ x. do
            change_entry_point (set_ext_auth (configure_ext_auth c x))
            pure (ok (policy_for c route_name (some (configure_ext_auth c x)))))
          (pure (ok (policy_for c route_name none))))
      (pure (err (new_error "security policy spec is not defined")))

-- The switch on the result of CreateOrPatch, and the event.
unfoldable pub record_operation : OperationResult → M Unit
record_operation operation_created = record_event normal "Created"
record_operation operation_updated = record_event normal "Updated"
record_operation operation_none = pure tt
record_operation operation_other = record_event normal ""

module _ (env : Env) where
  unfoldable pub create_or_update_route : HttpRoute → M (Option Error)
  create_or_update_route route = do
    result ← call (put_http_route route) (λ t. env.put_http_route t route)
    if_failed result (λ e. pure (some (wrap "failed to ensure HTTPRoute" e)))
        (λ r. do record_operation r; pure none)

  unfoldable pub create_or_update_security_policy :
      EntryPointResourceConfig → String → M (Option Error)
  create_or_update_security_policy c route_name = do
    constructed ← construct_security_policy c route_name
    if_failed constructed (λ e. pure (some (wrap "failed to construct SecurityPolicy" e)))
        λ policy. do
          result ← call (put_security_policy policy) (λ t. env.put_security_policy t policy)
          if_failed result (λ e. pure (some (wrap "failed to ensure SecurityPolicy" e)))
              (λ r. do record_operation r; pure none)

  -- `entrypoint.SetCondition(Ready, False, …); return ctrl.Result{}, err`
  unfoldable pub give_up : String → String → Error → M (Option Error)
  give_up reason message e = do
    kode_operator.EntryPoint.Object.set_condition env ready is_false reason
        (message <> ": " <> e.message)
    pure (some e)

  -- The update of the Kode's conditions at the end of ensureHTTPRoutes.
  unfoldable pub report_routes : M (Option Error)
  report_routes = do
    set_condition env ready is_true "HTTPRoutesEnsured" "HTTPRoutes have been successfully ensured"
    set_condition env available is_true "HTTPRoutesAvailable" "HTTPRoutes are available"
    set_condition env progressing is_false "HTTPRoutesReady" "HTTPRoutes are ready"
    update_status env

  unfoldable pub ensure_security_policy : EntryPointResourceConfig → String → M (Option Error)
  ensure_security_policy c route_name =
      if is_some (security_policy_of c.entry_point_spec) && is_https c
      then create_or_update_security_policy c route_name
      else pure none

  -- What ensureHTTPRoutes does with the route that it has constructed.
  unfoldable pub ensure_constructed : EntryPointResourceConfig → HttpRoute → M (Option Error)
  ensure_constructed c route = do
    e ← create_or_update_route route
    if_err e (give_up "HTTPRouteCreationFailed" "Failed to create or update HTTPRoute") do
      e ← ensure_security_policy c route.name
      if_err e (give_up "SecurityPolicyCreationFailed" "Failed to create or update SecurityPolicy")
          report_routes

  -- `ensureHTTPRoutes`. The result beside the error is only logged by the caller, and the hostname is not used.
  unfoldable pub ensure_http_routes : EntryPointResourceConfig → String → M (Option Error)
  ensure_http_routes c domain = do
    kode ← get
    if_failed (construct_http_route c kode Bool.false domain)
        (give_up "HTTPRouteConstructionFailed" "Failed to construct HTTPS route")
        (ensure_constructed c)
