-- ===== src/Kode/Phases/Handlers.antt =====
-- Each handler of internal/controllers/kode/handlers.go keeps to the edges of the machine.
use kode_operator.Prelude.{String, Bool, true, false, if◌then◌else◌}
use kode_operator.Go.{Error}
use kode_operator.Go.Keeps.{Yields, Yields-bind_of, yields_rules}
use kode_operator.Api.{
  Phase, pending, configuring, provisioning, active, updating, deleting, failed, phase_unknown,
}
use kode_operator.Env.{Env}
use kode_operator.Kode.Errors.{handle_reconcile_error}
use kode_operator.Kode.Handlers.Create.{
  handle_pending_state, handle_configuring_state, keep_provisioning, finish_provisioning,
  handle_provisioning_state,
}
use kode_operator.Kode.Handlers.Active.{
  ensure_healthy, stay_active, leave_active, start_update, check_health, handle_active_state,
}
use kode_operator.Kode.Handlers.Updating.{
  nothing_to_update, keep_updating, finish_update, apply_update, handle_updating_state,
}
use kode_operator.Kode.Handlers.Deleting.{
  start_cleanup, next_cycle, finish_deletion, handle_deleting_state,
}
use kode_operator.Kode.Handlers.Recovery.{
  determine_recovery_phase, give_up, attempt_recovery, handle_failed_state,
  determine_resource_state, settle, handle_unknown_state,
}
use kode_operator.Kode.Phases.{
  Moves, stay, along, NextOf, moves, fails, configure, provision, provisioned, update, updated,
  recover_pending, recover_configuring, recover_provisioning, resolve_deleting, resolve_pending,
  resolve_configuring, resolve_provisioning, resolve_active, resolve_updating,
}

Moves-if : {p x y : Phase} (b : Bool) → Moves p x → Moves p y → Moves p (if b then x else y)
Moves-if true h k = h
Moves-if false h k = k

module _ (env : Env) where
  NextOf-handle_reconcile_error :
      {p : Phase} (e : Error) (message : String)
      → Yields (NextOf p) (handle_reconcile_error env e message)
  unfolding handle_reconcile_error
  NextOf-handle_reconcile_error e message = search (yields_rules, fails) depth 20

  pub NextOf-handle_pending_state : Yields (NextOf pending) (handle_pending_state env)
  unfolding handle_pending_state
  NextOf-handle_pending_state =
      search (yields_rules, NextOf-handle_reconcile_error, moves, along, configure) depth 20

  pub NextOf-handle_configuring_state : Yields (NextOf configuring) (handle_configuring_state env)
  unfolding handle_configuring_state
  NextOf-handle_configuring_state =
      search (yields_rules, NextOf-handle_reconcile_error, moves, along, provision) depth 40

  pub NextOf-handle_provisioning_state :
      Yields (NextOf provisioning) (handle_provisioning_state env)
  unfolding handle_provisioning_state keep_provisioning finish_provisioning
  NextOf-handle_provisioning_state =
      search (yields_rules, NextOf-handle_reconcile_error, moves, stay, along, provisioned) depth 40

  pub NextOf-handle_active_state : Yields (NextOf active) (handle_active_state env)
  unfolding handle_active_state check_health stay_active ensure_healthy leave_active start_update
  NextOf-handle_active_state =
      search (yields_rules, NextOf-handle_reconcile_error, moves, stay, along, update) depth 40

  pub NextOf-handle_updating_state : Yields (NextOf updating) (handle_updating_state env)
  unfolding handle_updating_state nothing_to_update keep_updating finish_update apply_update
  NextOf-handle_updating_state =
      search (yields_rules, NextOf-handle_reconcile_error, moves, stay, along, updated) depth 40

  pub NextOf-handle_deleting_state : Yields (NextOf deleting) (handle_deleting_state env)
  unfolding handle_deleting_state start_cleanup next_cycle finish_deletion
  NextOf-handle_deleting_state =
      search (yields_rules, NextOf-handle_reconcile_error, moves, stay) depth 40

  Moves-determine_recovery_phase : Yields (Moves failed) (determine_recovery_phase env)
  unfolding determine_recovery_phase
  Moves-determine_recovery_phase =
      search (yields_rules, along, recover_pending, recover_configuring, recover_provisioning) depth
        20

  pub NextOf-handle_failed_state : Yields (NextOf failed) (handle_failed_state env)
  unfolding handle_failed_state give_up attempt_recovery
  NextOf-handle_failed_state =
      search
        (
          yields_rules,
          Yields-bind_of (Moves failed) _ _ Moves-determine_recovery_phase,
          moves,
          stay,
        )
        depth 40

  pub Moves-determine_resource_state : Yields (Moves phase_unknown) (determine_resource_state env)
  unfolding determine_resource_state
  Moves-determine_resource_state =
      search
        (
          yields_rules, Moves-if, along, resolve_pending, resolve_configuring, resolve_provisioning,
          resolve_active, resolve_updating,
        )
        depth 20

  NextOf-settle :
      (q : Phase) (reason : String)
      → Moves phase_unknown q
      → Yields (NextOf phase_unknown) (settle env q reason)
  unfolding settle
  NextOf-settle q reason h = search (yields_rules, moves, stay) depth 20

  pub NextOf-handle_unknown_state : Yields (NextOf phase_unknown) (handle_unknown_state env)
  unfolding handle_unknown_state
  NextOf-handle_unknown_state =
      search
        (
          yields_rules,
          Yields-bind_of (Moves phase_unknown) _ _ Moves-determine_resource_state,
          NextOf-settle,
          moves,
          stay,
          along,
          resolve_pending,
          resolve_deleting,
        )
        depth 40
