-- ===== src/Kode/Errors.antt =====
-- utils.go of internal/controllers/kode, without handleGenerationMismatch.
use kode_operator.Prelude.{String, ◌<>◌, str_eq, Option, none, some, ◌||◌, if◌then◌else◌}
use kode_operator.Go.{
  Error, Result, ok, err, wrap, is_not_found, ◌>>=◌, ◌>>◌, pure, deref, if_err, if_failed,
}
use kode_operator.Condition.{ready, available, progressing, is_false}
use kode_operator.Api.{Template, runtime_container, Phase, failed, deleting, configuring, active}
use kode_operator.Env.{Env, M, ask, get, change}
use kode_operator.KodeObject.{set_status, set_condition, update_status, set_runtime}
use kode_operator.StateMachine.{Next, requeue_after}
use kode_operator.Template.{fetch, template_kind_container, template_kind_cluster_container}
use kode_operator.Kode.Config.{init_kode_resources_config}
use kode_operator.Kode.Checks.{check_resources_ready}

module _ (env : Env) where
  unfoldable pub fetch_templates_with_retry : M (Result Template)
  fetch_templates_with_retry = do
    kode ← get
    let ref = kode.spec.template_ref
    fetched ← fetch env ref
    if_failed fetched
        (λ e. pure (
          err (
            if is_not_found e
            then wrap "template not found" e
            else wrap "failed to fetch template" e)))
        λ pointer. do
          template ← deref pointer
          let update = (do
            spec ← deref template.container_template_spec
            e ← set_runtime env (record { runtime = runtime_container; type = spec.runtime })
            if_err e (λ e. pure (err (wrap "failed to update runtime" e))) (pure (ok template)))
          if str_eq ref.kind template_kind_container
                || str_eq ref.kind template_kind_cluster_container
              then update
              else pure (ok template)

  unfoldable pub handle_reconcile_error : Error → String → M Next
  handle_reconcile_error e message = do
    set_condition env ready is_false "ReconciliationFailed" (message <> ": " <> e.message)
    set_condition env available is_false "ReconciliationFailed" "Kode resource is not available"
    set_condition env progressing is_false "ReconciliationFailed" "Kode resource is not progressing"
    now ← ask env.now
    change (set_status (λ s. record s { last_error = some e.message; last_error_time = some now }))
    update_error ← update_status env
    pure (failed, requeue_after env.reconcile_interval, some e)

  -- `return handleReconcileError(ctx, r, kode, err, message)` after a status update
  abbrev pub or_fail : String → Option Error → M Next → M Next
  or_fail message e rest = if_err e (λ e. handle_reconcile_error e message) rest

  unfoldable pub determine_current_state : M (Phase × Option Error)
  determine_current_state = do
    kode ← get
    let look = (do
      template ← fetch_templates_with_retry
      if_failed template (λ e. pure (failed, some e))
          λ template. do
            kode ← get
            is_ready ← check_resources_ready env kode (init_kode_resources_config kode template)
            if_failed is_ready (λ e. pure (failed, some e))
                (λ b. pure (if b then active else configuring, none)))
    if kode.deleted then pure (deleting, none) else look
