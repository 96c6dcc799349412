-- ===== src/EntryPoint/Frame.antt =====
-- What a run of the EntryPoint controller may do: a predicate that its calls and its changes of the
-- Kode in memory keep is kept by every part of it.
use kode_operator.Prelude.{ℕ, String, false, Option, none, some, List, ◌≡◌, refl}
use kode_operator.Go.{Error, Result, ok, err, if_failed}
use kode_operator.Go.Keeps.{Keeps, Keeps-bind, Keeps-if_err, keeps_rules}
use kode_operator.Condition.{Condition, ConditionType, ConditionStatus}
use kode_operator.Api.{Kode, Template, EntryPoint, failed, CrossNamespaceObjectReference}
use kode_operator.Api.Names.{KodeAddress}
use kode_operator.Gateway.{HttpRoute, SecurityPolicy}
use kode_operator.Env.{
  Env, St, EventType, event, patch_status, OperationResult, operation_created, operation_updated,
  operation_none, operation_other, put_http_route, put_security_policy, note, record_event,
  change_entry_point,
}
use kode_operator.Env.Frame.{
  env_rules, Keeps-get_bind, Keeps-record_event, Keeps-change_entry_point,
}
use kode_operator.KodeObject.{set_status, set_condition, update_status}
use kode_operator.KodeObject.Laws.{with_conditions, Keeps-update_status, Keeps-set_condition}
use kode_operator.EntryPoint.Lookup.{Keeps-find_entry_point_for_kode}
use kode_operator.EntryPoint.Object
use kode_operator.EntryPoint.Config.{
  EntryPointResourceConfig, gateway_of, init_entry_point_resources_config,
}
use kode_operator.EntryPoint.Routes.{
  construct_http_route, construct_security_policy, record_operation, create_or_update_route,
  create_or_update_security_policy, give_up, report_routes, ensure_security_policy,
  ensure_constructed, ensure_http_routes,
}
use kode_operator.EntryPoint.Reconcile.{
  find_entry_point_for_kode, fail, store_url, publish, route_through, answer_missing,
  reconcile_kode,
}

-- What is kept by the calls and the changes that other parts of the program make too.
pub record Ordinary (P : St → Type 0) : Type 0 where
  pub patching : (k : Kode) (s : St) → P s → P (note (patch_status k) s)
  pub recording : (t : EventType) (reason : String) (s : St) → P s → P (note (event t reason) s)
  pub conditioning :
      (f : List Condition → List Condition) (s : St)
      → P s
      → P (record s { kode = with_conditions f s.kode })
  pub caching :
      (cache : List (String × Template)) (fetched : Option Template) (s : St)
      → P s
      → P (record s { cache = cache; fetched = fetched })

module _ (env : Env) {P : St → Type 0} (o : Ordinary P) where
  pub Ordinary-event : (t : EventType) (reason : String) → Keeps P (record_event t reason)
  Ordinary-event t reason = Keeps-record_event t reason (o.recording t reason)

  pub Ordinary-update_status : Keeps P (update_status env)
  Ordinary-update_status = Keeps-update_status env o.patching

  pub Ordinary-set_condition :
      (t : ConditionType) (status : ConditionStatus) (reason message : String)
      → Keeps P (set_condition env t status reason message)
  Ordinary-set_condition t status reason message =
      Keeps-set_condition env t status reason message o.conditioning

-- `Allowed` is what is known of the Kode that a route is made for.
pub record Routable (Allowed : Kode → Type 0) (P : St → Type 0) : Type 0 where
  pub ordinary : Ordinary P
  pub allowed : (s : St) → P s → Allowed s.kode
  pub routing :
      (c : EntryPointResourceConfig) (k : Kode) (domain : String) (route : HttpRoute)
      → Allowed k
      → construct_http_route c k false domain ≡ ok route
      → (s : St) → P s
      → P (note (put_http_route route) s)
  pub owning :
      (f : EntryPoint → EntryPoint) (s : St) → P s → P (record s { entry_point = f s.entry_point })

-- What is kept by what the controller writes into the status of the Kode.
pub record Recordable (P : St → Type 0) : Type 0 where
  pub failing :
      (message : String) (now : ℕ) (s : St)
      → P s
      → P (record s {
        kode =
            set_status
              (λ st. record st {
                phase = failed;
                last_error = some message;
                last_error_time = some now;
              })
              s.kode;
      })
  pub linking :
      (url : String) (s : St)
      → P s
      → P (record s { kode = set_status (λ st. record st { kode_url = url }) s.kode })

module _ (env : Env) {Allowed : Kode → Type 0} {P : St → Type 0} (r : Routable Allowed P) where
  pub Routable-event : (t : EventType) (reason : String) → Keeps P (record_event t reason)
  Routable-event = Ordinary-event env r.ordinary

  pub Routable-update_status : Keeps P (update_status env)
  Routable-update_status = Ordinary-update_status env r.ordinary

  pub Routable-set_condition :
      (t : ConditionType) (status : ConditionStatus) (reason message : String)
      → Keeps P (set_condition env t status reason message)
  Routable-set_condition = Ordinary-set_condition env r.ordinary

  pub Routable-record_operation : (o : OperationResult) → Keeps P (record_operation o)
  unfolding record_operation
  Routable-record_operation operation_created = Routable-event _ _
  Routable-record_operation operation_updated = Routable-event _ _
  Routable-record_operation operation_none = search keeps_rules
  Routable-record_operation operation_other = Routable-event _ _

  Routable-owns : (f : EntryPoint → EntryPoint) → Keeps P (change_entry_point f)
  Routable-owns f = Keeps-change_entry_point f (r.owning f)

  Routable-give_up : (reason message : String) (e : Error) → Keeps P (give_up env reason message e)
  unfolding give_up kode_operator.EntryPoint.Object.set_condition
  Routable-give_up reason message e = search (keeps_rules, env_rules, Routable-owns) depth 20

  Routable-report_routes : Keeps P (report_routes env)
  unfolding report_routes
  Routable-report_routes =
      search (keeps_rules, Routable-set_condition, Routable-update_status) depth 20

  Routable-create_or_update_route :
      (route : HttpRoute)
      → ((s : St) → P s → P (note (put_http_route route) s))
      → Keeps P (create_or_update_route env route)
  unfolding create_or_update_route
  Routable-create_or_update_route route h =
      search (keeps_rules, env_rules, h, Routable-record_operation) depth 20

  pub Routable-construct_security_policy :
      (c : EntryPointResourceConfig) (name : String) → Keeps P (construct_security_policy c name)
  unfolding construct_security_policy
  Routable-construct_security_policy c name =
      search (keeps_rules, env_rules, Routable-owns) depth 20

  pub Routable-ensure_security_policy :
      ((p : SecurityPolicy) (s : St) → P s → P (note (put_security_policy p) s))
      → (c : EntryPointResourceConfig) (name : String) → Keeps P (ensure_security_policy env c name)
  unfolding ensure_security_policy create_or_update_security_policy
  Routable-ensure_security_policy h c name =
      search
        (keeps_rules, env_rules, h, Routable-construct_security_policy, Routable-record_operation)
        depth 20

  module _ (c : EntryPointResourceConfig)
      (secured : (name : String) → Keeps P (ensure_security_policy env c name)) where
    Routable-ensure_constructed :
        (route : HttpRoute)
        → ((s : St) → P s → P (note (put_http_route route) s))
        → Keeps P (ensure_constructed env c route)
    unfolding ensure_constructed
    Routable-ensure_constructed route h =
        Keeps-bind _ _ (Routable-create_or_update_route route h) λ e.
          Keeps-if_err e _ _ (Routable-give_up _ _) (
            Keeps-bind _ _ (secured route.name)
              λ e. Keeps-if_err e _ _ (Routable-give_up _ _) Routable-report_routes)

    Routable-constructed :
        (k : Kode) (domain : String) (x : Result HttpRoute)
        → Allowed k
        → construct_http_route c k false domain ≡ x
        → Keeps P (
            if_failed x
              (give_up env "HTTPRouteConstructionFailed" "Failed to construct HTTPS route")
              (ensure_constructed env c))
    unfolding if_failed
    Routable-constructed k domain (ok route) a e =
        Routable-ensure_constructed route (r.routing c k domain route a e)
    Routable-constructed k domain (err x) a e = Routable-give_up _ _ x

    pub Routable-ensure_http_routes : (domain : String) → Keeps P (ensure_http_routes env c domain)
    unfolding ensure_http_routes
    Routable-ensure_http_routes domain =
        Keeps-get_bind _ (λ s h. Routable-constructed s.kode domain _ (r.allowed s h) refl)

  pub Routable-find_entry_point_for_kode : Keeps P (find_entry_point_for_kode env)
  Routable-find_entry_point_for_kode = Keeps-find_entry_point_for_kode env r.ordinary.caching

  Routable-gateway_of :
      (e : EntryPoint) (ref : Option CrossNamespaceObjectReference) → Keeps P (gateway_of e ref)
  unfolding gateway_of
  Routable-gateway_of e none = search keeps_rules
  Routable-gateway_of e (some ref) = search keeps_rules depth 20

  pub Routable-init_config : (e : EntryPoint) → Keeps P (init_entry_point_resources_config e)
  unfolding init_entry_point_resources_config
  Routable-init_config e = search (keeps_rules, Routable-gateway_of) depth 20

  module _ (recordable : Recordable P)
      (secured : (c : EntryPointResourceConfig) (name : String)
        → Keeps P (ensure_security_policy env c name)) where
    pub Routable-fail : (message : String) (e : Error) → Keeps P (fail env message e)
    unfolding fail
    Routable-fail message e =
        search
          (
            keeps_rules, env_rules, Routable-set_condition, Routable-update_status, Routable-event,
            recordable.failing,
          )
          depth 20

    pub Routable-store_url : (url : String) → Keeps P (store_url env url)
    unfolding store_url
    Routable-store_url url =
        search
          (
            keeps_rules, env_rules, Routable-set_condition, Routable-update_status,
            recordable.linking,
          )
          depth 20

    Routable-publish : (c : EntryPointResourceConfig) (a : KodeAddress) → Keeps P (publish env c a)
    unfolding publish
    Routable-publish c a =
        search
          (
            keeps_rules,
            env_rules,
            Routable-ensure_http_routes c (secured c),
            Routable-fail,
            Routable-store_url,
          )
          depth 20

    Routable-route_through : (e : EntryPoint) → Keeps P (route_through env e)
    unfolding route_through
    Routable-route_through e =
        search
          (
            keeps_rules, env_rules, Routable-owns, Routable-init_config, Routable-fail,
            Routable-publish,
          )
          depth 20

    pub Routable-reconcile_kode : Keeps P (reconcile_kode env)
    unfolding reconcile_kode answer_missing
    Routable-reconcile_kode =
        search
          (
            keeps_rules, env_rules, Routable-find_entry_point_for_kode, Routable-fail,
            Routable-route_through,
          )
          depth 20
