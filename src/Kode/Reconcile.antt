-- ===== src/Kode/Reconcile.antt =====
-- Reconcile of reconciler.go and handleGenerationMismatch of utils.go in internal/controllers/kode.
use kode_operator.Prelude.{String, ◌<>◌, not, Option, none, some, ◌&&◌, ◌==◌, ltb, if◌then◌else◌}
use kode_operator.Go.{Error, ignore_not_found, ◌>>=◌, ◌>>◌, pure, when, if_err, if_failed}
use kode_operator.Condition.{ready, available, progressing, is_true, is_false}
use kode_operator.Api.{
  same_phase, pending, configuring, provisioning, active, updating, deleting, failed, phase_unknown,
}
use kode_operator.Env.{Env, St, M, ask, get, change}
use kode_operator.KodeObject.{
  set_status, get_phase, set_phase, set_condition, update_status, contains_finalizer, add_finalizer,
}
use kode_operator.StateMachine.{
  CtrlResult, Next, stop, requeue, requeue_after, StateManagedResource, Handlers, new_state_machine,
  register_handler, handle_state,
}
use kode_operator.Kode.Handlers.Create.{
  handle_pending_state, handle_configuring_state, handle_provisioning_state,
}
use kode_operator.Kode.Handlers.Active.{handle_active_state}
use kode_operator.Kode.Handlers.Updating.{handle_updating_state}
use kode_operator.Kode.Handlers.Deleting.{handle_deleting_state}
use kode_operator.Kode.Handlers.Recovery.{handle_failed_state, handle_unknown_state}

abbrev pub Reply : Type 0
Reply = CtrlResult × Option Error

-- `return ctrl.Result{Requeue: true}, err`, or go on.
abbrev or_requeue : Option Error → M Reply → M Reply
or_requeue e rest = if_err e (λ e. pure (requeue, some e)) rest

module _ (env : Env) where
  -- The Kode as the state machine sees it.
  abbrev pub kode_resource : StateManagedResource St
  kode_resource = record {
    get_phase = λ s. get_phase s.kode;
    set_phase = set_phase;
    update_status = update_status env;
  }

  unfoldable pub kode_handlers : Handlers St
  kode_handlers = register_handler phase_unknown (handle_unknown_state env) (
      register_handler failed (handle_failed_state env) (
        register_handler deleting (handle_deleting_state env) (
          register_handler updating (handle_updating_state env) (
            register_handler active (handle_active_state env) (
              register_handler provisioning (handle_provisioning_state env) (
                register_handler configuring (handle_configuring_state env)
                  (register_handler pending (handle_pending_state env) new_state_machine)))))))

  unfoldable pub handle_generation_mismatch : M Reply
  handle_generation_mismatch = do
    kode ← get
    change (set_status (λ s. record s { observed_generation = kode.generation }))
    when (not (same_phase kode.status.phase deleting)) do
      set_phase updating
      set_condition env ready is_false "GenerationMismatch"
          "Generation mismatch detected, resource is being updated"
      set_condition env available is_false "GenerationMismatch"
          "Generation mismatch detected, resource is being updated"
      set_condition env progressing is_true "GenerationMismatch"
          "Generation mismatch detected, resource is being updated"
    e ← update_status env
    or_requeue e (pure (requeue, none))

  -- The branch that adds the finalizer and initialises the status.
  unfoldable pub initialize : M Reply
  initialize = do
    e ← add_finalizer env
    if_err e (λ e. pure (requeue_after env.reconcile_interval, some e))
        do
          kode ← get
          change (
              set_status (λ s. record s { phase = pending; observed_generation = kode.generation }))
          e ← update_status env
          or_requeue e (pure (requeue, none))

  -- The end of Reconcile: an error of the state machine is returned with a requeue.
  unfoldable pub run_state_machine : M Reply
  run_state_machine = do
    (result, e) ← handle_state kode_resource env.reconcile_interval kode_handlers
    or_requeue e (pure (result, none))

  -- The reset of the retry count, and the state machine.
  unfoldable pub reset_and_run : M Reply
  reset_and_run = do
    kode ← get
    let reset = change (set_status (λ s. record s { retry_count = 0 })) >> update_status env
    e ←
        (if not (same_phase kode.status.phase failed) && ltb 0 kode.status.retry_count
          then reset
          else pure none)
    or_requeue e run_state_machine

  -- The part of Reconcile after the deletion block.
  unfoldable pub reconcile_live : M Reply
  reconcile_live = do
    kode ← get
    if not (contains_finalizer env kode)
        then initialize
        else if not (kode.generation == kode.status.observed_generation)
        then handle_generation_mismatch
        else reset_and_run

  -- Reconcile once the Kode has been read.
  unfoldable pub reconcile_kode : M Reply
  reconcile_kode = do
    kode ← get
    let delete = (do set_phase deleting; e ← update_status env; or_requeue e reconcile_live)
    if not kode.deleted
        then reconcile_live
        else if not (contains_finalizer env kode)
        then pure (stop, none)
        else delete

  unfoldable pub reconcile : String → String → M Reply
  reconcile name namespace = do
    found ← ask (λ t. env.get_kode t name namespace)
    if_failed found (λ e. pure (stop, ignore_not_found e))
        λ kode. do change (λ _. kode); reconcile_kode

  -- `HandleReconcileError` of the reconciler, for a resource that is a Kode.
  unfoldable pub handle_reconcile_error : Error → String → M Next
  handle_reconcile_error e message = do
    set_condition env ready is_false "ReconciliationFailed" (message <> ": " <> e.message)
    set_condition env available is_false "ReconciliationFailed" "Kode resource is not available"
    set_condition env progressing is_false "ReconciliationFailed" "Kode resource is not progressing"
    now ← ask env.now
    change (set_status (λ s. record s { last_error = some e.message; last_error_time = some now }))
    update_error ← update_status env
    pure (failed, stop, some e)
