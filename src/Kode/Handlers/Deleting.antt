-- ===== src/Kode/Handlers/Deleting.antt =====
-- handleDeletingState.
use kode_operator.Prelude.{ℕ, ◌+◌, Option, none, ltb, ◌==◌, if◌then◌else◌}
use kode_operator.Go.{Error, ◌>>=◌, ◌>>◌, pure, when, if_err, if_failed}
use kode_operator.Condition.{ready, available, progressing, is_true, is_false}
use kode_operator.Api.{deleting}
use kode_operator.Env.{Env, M, normal, warning, get, change, record_event}
use kode_operator.KodeObject.{
  set_status, set_condition, update_status, contains_finalizer, remove_finalizer,
}
use kode_operator.StateMachine.{Next, stop, requeue, requeue_after}
use kode_operator.Cleanup.{cleanup, new_kode_cleanup_resource}
use kode_operator.Kode.Checks.{check_resources_deleted}
use kode_operator.Kode.Errors.{handle_reconcile_error}

abbrev set_cycle : ℕ → M Unit
set_cycle n = change (set_status (λ s. record s { deletion_cycle = n }))

-- `log.Error(err, …); return PhaseDeleting, ctrl.Result{Requeue: true}, nil`
abbrev try_again : Option Error → M Next → M Next
try_again e rest = if_err e (λ e. pure (deleting, requeue, none)) rest

module _ (env : Env) where
  -- The first cycle: the cleanup is started.
  unfoldable pub start_cleanup : M Next
  start_cleanup = do
    set_cycle 1
    kode ← get
    result ← cleanup env (new_kode_cleanup_resource kode)
    if_failed result
        (λ e.
          record_event warning "CleanupFailed"
          >> handle_reconcile_error env e "Failed to initiate cleanup")
        λ result. do
          record_event normal "DeletionStarted"
          e ← update_status env
          try_again e (pure (deleting, result, none))

  -- A later cycle: the resources still exist.
  unfoldable pub next_cycle : M Next
  next_cycle = do
    kode ← get
    set_cycle (kode.status.deletion_cycle + 1)
    e ← update_status env
    try_again e do
      kode ← get
      when (ltb 10 kode.status.deletion_cycle) (record_event warning "DeletionDelayed")
      pure (deleting, requeue_after env.reconcile_interval, none)

  -- The children are deleted.
  unfoldable pub finish_deletion : M Next
  finish_deletion = do
    kode ← get
    let release = (do
      e ← remove_finalizer env
      if_err e
          (λ e.
            record_event warning "FinalizerRemovalFailed"
            >> handle_reconcile_error env e "Failed to remove finalizer")
          do record_event normal "DeletionComplete"; pure (deleting, stop, none))
    if contains_finalizer env kode then release else pure (deleting, stop, none)

  unfoldable pub handle_deleting_state : M Next
  handle_deleting_state = do
    set_condition env ready is_false "Deleting" "Resource is being deleted"
    set_condition env available is_false "Deleting" "Resource is shutting down"
    set_condition env progressing is_true "Deleting" "Resource deletion in progress"
    e ← update_status env
    try_again e do
      kode ← get
      gone ← check_resources_deleted env kode
      if_failed gone
          (λ e.
            record_event warning "DeletionCheckFailed"
            >> handle_reconcile_error env e "Failed to check child resources deletion")
          (λ b.
            if b
            then finish_deletion
            else if kode.status.deletion_cycle == 0
            then start_cleanup
            else next_cycle)
