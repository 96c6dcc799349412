-- ===== src/Kode/Handlers/Active.antt =====
-- handleActiveState.
use kode_operator.Prelude.{ℕ, String, str_eq, Bool, not, none, ◌||◌, ◌==◌, if◌then◌else◌}
use kode_operator.Go.{◌>>=◌, ◌>>◌, pure, deref, when, if_failed}
use kode_operator.Condition.{
  ConditionType, ConditionStatus, ready, available, progressing, is_true, is_false, same_status,
  get_condition,
}
use kode_operator.Api.{active, updating}
use kode_operator.Env.{Env, M, normal, warning, get, change, record_event}
use kode_operator.KodeObject.{set_status, set_condition, update_status}
use kode_operator.StateMachine.{Next, requeue, requeue_after}
use kode_operator.Kode.Config.{init_kode_resources_config}
use kode_operator.Kode.Checks.{check_resources_ready}
use kode_operator.Kode.Errors.{fetch_templates_with_retry, handle_reconcile_error, or_fail}

module _ (env : Env) where
  -- One of the three blocks that make a condition healthy: whether it called SetCondition. A condition that is missing is a nil pointer.
  unfoldable pub ensure_condition : ConditionType → ConditionStatus → String → String → M Bool
  ensure_condition type status reason message = do
    kode ← get
    c ← deref (get_condition type kode.status.conditions)
    let stale = not (same_status c.status status) || not (str_eq c.reason reason)
    when stale (set_condition env type status reason message)
    pure stale

  -- The end of handleActiveState: the conditions, and a status update if one was set.
  unfoldable pub ensure_healthy : M Next
  ensure_healthy = do
    a ← ensure_condition ready is_true "ResourcesHealthy" "All resources are healthy"
    b ← ensure_condition available is_true "ServiceAvailable" "Service is operating normally"
    c ← ensure_condition progressing is_false "Stable" "No ongoing changes"
    let conditions_changed = a || b || c
    e ← (if conditions_changed then update_status env else pure none)
    or_fail env "Failed to update status" e
        (pure (active, requeue_after env.long_reconcile_interval, none))

  -- The branch where the resources are ready.
  unfoldable pub stay_active : ℕ → M Next
  stay_active port = do
    kode ← get
    let store_port = change (set_status (λ s. record s { kode_port = port })) >> update_status env
    e ← (if kode.status.kode_port == port then pure none else store_port)
    or_fail env "Failed to update status" e ensure_healthy

  unfoldable pub leave_active : M Next
  leave_active = do
    set_condition env ready is_false "ResourcesNotReady" "One or more resources are no longer ready"
    set_condition env available is_false "ServiceDegraded" "Service may be degraded"
    set_condition env progressing is_true "Updating" "Attempting to restore resource health"
    e ← update_status env
    or_fail env "Failed to update status" e do
      record_event warning "HealthDegraded"
      pure (updating, requeue_after env.reconcile_interval, none)

  -- The branch where the spec has changed.
  unfoldable pub start_update : M Next
  start_update = do
    set_condition env progressing is_true "UpdateRequired"
        "Kode spec has changed and needs updating"
    set_condition env ready is_false "UpdatePending" "Update is pending due to spec changes"
    e ← update_status env
    or_fail env "Failed to update status" e
        do record_event normal "UpdateDetected"; pure (updating, requeue, none)

  unfoldable pub check_health : M Next
  check_health = do
    template ← fetch_templates_with_retry env
    if_failed template
        (λ e.
          record_event warning "TemplateFetchFailed"
          >> handle_reconcile_error env e "Failed to fetch template")
        λ template. do
          kode ← get
          is_ready ← check_resources_ready env kode (init_kode_resources_config kode template)
          if_failed is_ready
              (λ e.
                record_event warning "ReadinessCheckFailed"
                >> handle_reconcile_error env e "Failed to check resource readiness")
              (λ b. if b then stay_active template.port else leave_active)

  unfoldable pub handle_active_state : M Next
  handle_active_state = do
    kode ← get
    if kode.generation == kode.status.observed_generation then check_health else start_update
