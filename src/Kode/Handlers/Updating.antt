-- ===== src/Kode/Handlers/Updating.antt =====
-- handleUpdatingState.
use kode_operator.Prelude.{ℕ, none, if◌then◌else◌}
use kode_operator.Go.{◌>>=◌, ◌>>◌, pure, if_err, if_failed}
use kode_operator.Condition.{ready, available, progressing, is_true, is_false}
use kode_operator.Api.{active, updating}
use kode_operator.Env.{Env, M, normal, warning, get, change, record_event}
use kode_operator.KodeObject.{set_status, set_condition, update_status}
use kode_operator.StateMachine.{Next, stop, requeue, requeue_after}
use kode_operator.Kode.Config.{KodeResourceConfig, init_kode_resources_config}
use kode_operator.Kode.Checks.{check_resources_ready}
use kode_operator.Kode.Changes.{Changes, detect_changes, no_changes, apply_configuration}
use kode_operator.Kode.Validate.{validate_configuration}
use kode_operator.Kode.Errors.{fetch_templates_with_retry, handle_reconcile_error, or_fail}

abbrev observe : M Unit
observe = do
  kode ← get
  change (set_status (λ s. record s { observed_generation = kode.generation }))

module _ (env : Env) where
  -- The branch with no changes.
  unfoldable pub nothing_to_update : M Next
  nothing_to_update = do
    observe
    set_condition env progressing is_false "NoChanges" "No changes detected during update"
    set_condition env ready is_true "ResourcesHealthy" "All resources are healthy"
    e ← update_status env
    or_fail env "Failed to update status" e (pure (active, requeue, none))

  unfoldable pub keep_updating : M Next
  keep_updating = do
    set_condition env progressing is_true "UpdateInProgress"
        "Update in progress, waiting for resources to be ready"
    set_condition env ready is_false "UpdateInProgress" "Resources are being updated"
    e ← update_status env
    or_fail env "Failed to update status" e
        (pure (updating, requeue_after env.reconcile_interval, none))

  unfoldable pub finish_update : ℕ → M Next
  finish_update port = do
    observe
    change (set_status (λ s. record s { kode_port = port }))
    set_condition env ready is_true "UpdateComplete" "Update completed successfully"
    set_condition env available is_true "ServiceAvailable" "Service is operating normally"
    set_condition env progressing is_false "UpdateComplete" "Update process has completed"
    e ← update_status env
    or_fail env "Failed to update status" e
        do record_event normal "UpdateComplete"; pure (active, stop, none)

  -- The rest of the handler, once there are changes.
  unfoldable pub apply_update : KodeResourceConfig → Changes → M Next
  apply_update config changes = do
    e ← apply_configuration env config changes
    if_err e
        (λ e.
          record_event warning "UpdateFailed"
          >> handle_reconcile_error env e "Failed to apply updates")
        do
          e ← validate_configuration env config
          if_err e
              (λ e.
                record_event warning "ValidationFailed"
                >> handle_reconcile_error env e "Failed to validate updates")
              do
                kode ← get
                is_ready ← check_resources_ready env kode config
                if_failed is_ready
                    (λ e.
                      record_event warning "ReadinessCheckFailed"
                      >> handle_reconcile_error env e "Failed to check resource readiness")
                    (λ b. if b then finish_update config.template.port else keep_updating)

  unfoldable pub handle_updating_state : M Next
  handle_updating_state = do
    template ← fetch_templates_with_retry env
    if_failed template
        (λ e.
          record_event warning "TemplateFetchFailed"
          >> handle_reconcile_error env e "Failed to fetch template")
        λ template. do
          kode ← get
          let config = init_kode_resources_config kode template
          changes ← detect_changes env config
          if_failed changes
              (λ e.
                record_event warning "ChangeDetectionFailed"
                >> handle_reconcile_error env e "Failed to detect changes")
              (λ changes.
                if no_changes changes then nothing_to_update else apply_update config changes)
