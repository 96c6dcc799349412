-- ===== src/EntryPoint/Reconcile.antt =====
-- reconciler.go and utils.go of internal/controllers/entrypoint.
use kode_operator.Prelude.{String, ◌<>◌, ◌*◌, str_eq, Option, none, some, ◌||◌, ◌==◌, if◌then◌else◌}
use kode_operator.Go.{
  Error, Result, ok, err, new_error, wrap, is_not_found, ignore_not_found, ◌>>=◌, ◌>>◌, pure, deref,
  if_err, if_failed, if_some,
}
use kode_operator.Condition.{error, available, is_true}
use kode_operator.Api.{
  CrossNamespaceObjectReference, Template, EntryPoint, same_phase, active, failed,
}
use kode_operator.Api.Names.{KodeAddress, generate_kode_url}
use kode_operator.Env.{Env, M, warning, ask, get, change, record_event, change_entry_point}
use kode_operator.Common.{get_latest_entry_point, get_latest_kode}
use kode_operator.KodeObject.{get_port, set_status, set_condition, update_status}
use kode_operator.StateMachine.{CtrlResult, stop, requeue_after}
use kode_operator.Cleanup.{second}
use kode_operator.Template.{fetch, template_kind_container, template_kind_cluster_container}
use kode_operator.EntryPoint.Config.{EntryPointResourceConfig, init_entry_point_resources_config}
use kode_operator.EntryPoint.Routes.{ensure_http_routes}

abbrev pub Reply : Type 0
Reply = CtrlResult × Option Error

module _ (env : Env) where
  -- The end of findEntryPointForKode. A reference without a namespace panics.
  unfoldable pub find_latest : Option CrossNamespaceObjectReference → M (Result EntryPoint)
  find_latest none = pure (err (new_error "missing EntryPointRef in template"))
  find_latest (some ref) = do
    namespace ← deref ref.namespace
    found ← get_latest_entry_point env ref.name namespace
    if_failed found (λ e. pure (err (wrap "failed to get EntryPoint" e))) (λ e. pure (ok e))

  -- The switch on the kind of the template.
  unfoldable pub find_from : Template → M (Result EntryPoint)
  find_from template =
      if str_eq template.kind template_kind_container
        || str_eq template.kind template_kind_cluster_container
      then if_some template.container_template_spec (λ spec. find_latest spec.entry_point_ref)
          (pure (err (new_error "invalid ContainerTemplate: missing ContainerTemplateSpec")))
      else pure (err (new_error ("unknown template kind: " <> template.kind)))

  unfoldable pub find_entry_point_for_kode : M (Result EntryPoint)
  find_entry_point_for_kode = do
    kode ← get
    fetched ← fetch env kode.spec.template_ref
    if_failed fetched (λ e. pure (err (wrap "failed to fetch template" e)))
        (λ pointer. do template ← deref pointer; find_from template)

  -- The three blocks that put an error into the status of the Kode.
  unfoldable pub fail : String → Error → M Reply
  fail message e = do
    set_condition env error is_true "ReconciliationFailed" (message <> ": " <> e.message)
    now ← ask env.now
    change (
        set_status (λ s. record s {
          phase = failed;
          last_error = some e.message;
          last_error_time = some now;
        }))
    update_error ← update_status env
    if_err update_error
        (λ u. pure (
          requeue_after (5 * second),
          some (
              new_error
                ("primary error: " <> e.message <> ", kode status update error: " <> u.message)),
        ))
        do record_event warning "Failed"; pure (requeue_after (5 * second), some e)

  -- The last block of reconcileKode.
  unfoldable pub store_url : String → M Reply
  store_url url = if str_eq url "" then pure (stop, none) else (do
    change (set_status (λ s. record s { kode_url = url }))
    set_condition env available is_true "ResourcesReady" "Kode is available and ready to use"
    e ← update_status env
    if_err e (λ e. pure (requeue_after (5 * second), some (wrap "failed to update Kode URL" e)))
        (pure (stop, none)))

  -- From the check of the URL on.
  unfoldable pub publish : EntryPointResourceConfig → KodeAddress → M Reply
  publish c address = do
    kode ← get
    let route = (do
      e ← ensure_http_routes env c address.domain
      if_err e (fail "Failed to ensure HTTPRoute") (store_url address.url))
    if str_eq kode.status.kode_url address.url
        then pure (stop, none)
        else if get_port kode == 0
        then pure (requeue_after (5 * second), none)
        else route

  -- What follows a successful search.
  unfoldable pub route_through : EntryPoint → M Reply
  route_through entry_point = do
    change_entry_point (λ e. entry_point)
    c ← init_entry_point_resources_config entry_point
    kode ← get
    if_failed
        (generate_kode_url entry_point.spec.routing_type entry_point.spec.base_domain kode.name
          c.protocol)
        (fail "Failed to construct Kode URL") (publish c)

  unfoldable pub answer_missing : Error → M Reply
  answer_missing e =
      if is_not_found e
      then pure (requeue_after second, none)
      else fail "Unable to find EntryPoint for Kode" e

  unfoldable pub reconcile_kode : M Reply
  reconcile_kode = do
    kode ← get
    let found = (do
      entry_point ← find_entry_point_for_kode
      if_failed entry_point answer_missing route_through)
    if same_phase kode.status.phase active then found else pure (stop, none)

  -- `Reconcile` of a name and a namespace. An EntryPoint is read and then meets the default of the switch.
  unfoldable pub reconcile : String → String → M Reply
  reconcile name namespace = do
    let entry_point = (do
      found ← get_latest_entry_point env name namespace
      if_failed found (λ e. pure (stop, ignore_not_found e)) (λ e. pure (stop, none)))
    let kode = (do
      found ← get_latest_kode env name namespace
      if_failed found (λ e. pure (stop, ignore_not_found e))
          (λ k. do change (λ old. k); reconcile_kode))
    if str_eq namespace "" then entry_point else kode
