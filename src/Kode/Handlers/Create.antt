-- ===== src/Kode/Handlers/Create.antt =====
-- handlePendingState, handleConfiguringState and handleProvisioningState.
use kode_operator.Prelude.{ℕ, join, not, none, if◌then◌else◌}
use kode_operator.Go.{new_error, ◌>>=◌, ◌>>◌, pure, when, if_err, if_failed}
use kode_operator.Condition.{ready, available, progressing, is_true, is_false}
use kode_operator.Api.{configuring, provisioning, active}
use kode_operator.Env.{Env, M, normal, warning, get, change, record_event}
use kode_operator.KodeObject.{set_status, set_condition, update_status}
use kode_operator.StateMachine.{Next, stop, requeue, requeue_after}
use kode_operator.Validation.{validate_kode}
use kode_operator.Kode.Config.{init_kode_resources_config}
use kode_operator.Kode.Checks.{check_resources_ready}
use kode_operator.Kode.Changes.{detect_changes, no_changes, apply_configuration}
use kode_operator.Kode.Validate.{validate_configuration}
use kode_operator.Kode.Errors.{fetch_templates_with_retry, handle_reconcile_error, or_fail}

module _ (env : Env) where
  unfoldable pub handle_pending_state : M Next
  handle_pending_state = do
    kode ← get
    let result = validate_kode kode
    let accept = (do
      set_condition env ready is_false "Pending" "Kode resource is pending configuration"
      set_condition env available is_false "Pending" "Kode resource is not yet available"
      set_condition env progressing is_true "Configuring" "Kode resource is being configured"
      e ← update_status env
      or_fail env "Failed to update Kode status" e (pure (configuring, requeue, none)))
    if result.valid
        then accept
        else handle_reconcile_error env (new_error (join "; " result.errors)) "Validation failed"

  unfoldable pub handle_configuring_state : M Next
  handle_configuring_state = do
    template ← fetch_templates_with_retry env
    if_failed template
        (λ e.
          record_event warning "TemplateFetchFailed"
          >> handle_reconcile_error env e "Failed to fetch template")
        λ template. do
          kode ← get
          let config = init_kode_resources_config kode template
          changes ← detect_changes env config
          if_failed changes
              (λ e.
                record_event warning "ChangeDetectionFailed"
                >> handle_reconcile_error env e "Failed to detect changes")
              λ changes. do
                when (not (no_changes changes)) (record_event normal "ConfigurationRequired")
                e ← apply_configuration env config changes
                if_err e
                    (λ e.
                      record_event warning "ConfigurationFailed"
                      >> handle_reconcile_error env e "Failed to apply configuration")
                    do
                      when (not (no_changes changes)) (record_event normal "ConfigurationApplied")
                      e ← validate_configuration env config
                      if_err e
                          (λ e.
                            record_event warning "ValidationFailed"
                            >> handle_reconcile_error env e "Failed to validate configuration")
                          do
                            set_condition env ready is_false "Configuring"
                                "Kode resources are being configured"
                            set_condition env available is_false "Configuring"
                                "Kode is not yet available"
                            set_condition env progressing is_true "Configuring"
                                "Kode resources are being configured"
                            e ← update_status env
                            or_fail env "Failed to update status" e
                                (pure (provisioning, requeue, none))

  -- The branch of handleProvisioningState where the resources are not ready.
  unfoldable pub keep_provisioning : M Next
  keep_provisioning = do
    set_condition env ready is_false "Provisioning" "Resources are still being provisioned"
    set_condition env available is_false "Provisioning" "Resources are not yet available"
    set_condition env progressing is_true "Provisioning" "Resources are being provisioned"
    e ← update_status env
    or_fail env "Failed to update status" e
        (pure (provisioning, requeue_after env.reconcile_interval, none))

  -- The branch where they are.
  unfoldable pub finish_provisioning : ℕ → M Next
  finish_provisioning port = do
    set_condition env ready is_true "ResourcesReady" "All Kode resources are ready"
    set_condition env available is_true "ResourcesReady" "Kode is available"
    set_condition env progressing is_false "Provisioned" "Kode resources are fully provisioned"
    change (set_status (λ s. record s { kode_port = port }))
    e ← update_status env
    or_fail env "Failed to update status" e
        do record_event normal "ProvisioningComplete"; pure (active, stop, none)

  unfoldable pub handle_provisioning_state : M Next
  handle_provisioning_state = do
    template ← fetch_templates_with_retry env
    if_failed template
        (λ e.
          record_event warning "TemplateFetchFailed"
          >> handle_reconcile_error env e "Failed to fetch template")
        λ template. do
          kode ← get
          is_ready ← check_resources_ready env kode (init_kode_resources_config kode template)
          if_failed is_ready
              (λ e.
                record_event warning "ReadinessCheckFailed"
                >> handle_reconcile_error env e "Failed to check resource readiness")
              (λ b. if b then finish_provisioning template.port else keep_provisioning)
