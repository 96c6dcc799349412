-- ===== src/Kode/Handlers/Recovery.antt =====
-- handleFailedState, handleUnknownState, determineResourceState and determineRecoveryPhase.
use kode_operator.Prelude.{
  ℕ, ◌+◌, String, ◌<>◌, decimal, not, Option, none, leb, ◌==◌, is_some, if◌then◌else◌,
}
use kode_operator.Go.{Error, ◌>>=◌, ◌>>◌, pure, when, if_err, if_failed}
use kode_operator.Condition.{ready, available, progressing, is_true, is_false, unknown}
use kode_operator.Api.{
  Phase, same_phase, pending, configuring, provisioning, active, updating, deleting, failed,
  phase_unknown,
}
use kode_operator.Env.{Env, M, normal, warning, get, change, record_event}
use kode_operator.KodeObject.{set_status, set_phase, set_condition, update_status, clear_error}
use kode_operator.StateMachine.{Next, requeue, requeue_after}
use kode_operator.Kode.Config.{init_kode_resources_config}
use kode_operator.Kode.Checks.{check_resources_ready}
use kode_operator.Kode.Errors.{fetch_templates_with_retry}

abbrev pub max_retries : ℕ
max_retries = 5

-- `log.Error(err, …); return phase, ctrl.Result{Requeue: true}, nil`
abbrev retry_in : Phase → Option Error → M Next → M Next
retry_in phase e rest = if_err e (λ e. pure (phase, requeue, none)) rest

module _ (env : Env) where
  unfoldable pub determine_recovery_phase : M Phase
  determine_recovery_phase = do
    template ← fetch_templates_with_retry env
    if_failed template (λ e. pure pending)
        λ template. do
          kode ← get
          is_ready ← check_resources_ready env kode (init_kode_resources_config kode template)
          if_failed is_ready (λ e. pure pending)
              (λ b.
                if not b
                then pure provisioning
                else if not (kode.generation == kode.status.observed_generation)
                then pure configuring
                else pure pending)

  -- The branch with no attempts left.
  unfoldable pub give_up : M Next
  give_up = do
    set_condition env ready is_false "MaxRetriesExceeded"
        ("Recovery failed after " <> decimal max_retries <> " attempts")
    set_condition env available is_false "ServiceUnavailable"
        "Service is unavailable due to persistent failures"
    set_condition env progressing is_false "RecoveryAbandoned"
        "Recovery attempts abandoned due to maximum retries"
    e ← update_status env
    retry_in failed e do
      record_event warning "RecoveryAbandoned"
      pure (failed, requeue_after env.long_reconcile_interval, none)

  unfoldable pub attempt_recovery : M Next
  attempt_recovery = do
    kode ← get
    let attempt = kode.status.retry_count + 1
    change (set_status (λ s. record s { retry_count = attempt }))
    set_condition env ready is_false "AttemptingRecovery"
        ("Recovery attempt " <> decimal attempt <> " of " <> decimal max_retries)
    set_condition env available is_false "RecoveryInProgress"
        "Service availability unknown during recovery"
    set_condition env progressing is_true "RecoveryInProgress"
        ("Attempting recovery (try " <> decimal attempt <> "/" <> decimal max_retries <> ")")
    when (is_some kode.status.last_error) (change (set_status clear_error))
    e ← update_status env
    retry_in failed e do
      record_event normal "RecoveryAttempt"
      phase ← determine_recovery_phase
      record_event normal "RecoveryTransition"
      pure (phase, requeue, none)

  unfoldable pub handle_failed_state : M Next
  handle_failed_state = do
    kode ← get
    if leb max_retries kode.status.retry_count then give_up else attempt_recovery

  -- Its error result is always nil.
  unfoldable pub determine_resource_state : M Phase
  determine_resource_state = do
    template ← fetch_templates_with_retry env
    if_failed template (λ e. pure pending)
        λ template. do
          kode ← get
          let check = (do
            is_ready ← check_resources_ready env kode (init_kode_resources_config kode template)
            if_failed is_ready (λ e. pure configuring)
                (λ b. pure (if b then active else provisioning)))
          if kode.generation == kode.status.observed_generation then check else pure updating

  -- The status update and the event with which handleUnknownState settles on a phase.
  unfoldable pub settle : Phase → String → M Next
  settle phase reason = do
    set_phase phase
    e ← update_status env
    retry_in phase_unknown e do record_event normal reason; pure (phase, requeue, none)

  unfoldable pub handle_unknown_state : M Next
  handle_unknown_state = do
    set_condition env ready unknown "StateUnknown" "Resource state cannot be determined"
    set_condition env available unknown "StateUnknown" "Resource availability cannot be determined"
    set_condition env progressing unknown "StateUnknown" "Resource progress cannot be determined"
    e ← update_status env
    retry_in phase_unknown e do
      record_event warning "StateUnknown"
      kode ← get
      let resolve = (do
        phase ← determine_resource_state
        if same_phase phase phase_unknown
            then settle pending "StateFallback"
            else settle phase "StateDetermined")
      if kode.deleted then pure (deleting, requeue, none) else resolve
