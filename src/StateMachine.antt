-- ===== src/StateMachine.antt =====
-- The state machine: internal/statemachine/statemachine.go and types.go.
use kode_operator.Prelude.{ℕ, Bool, true, false, not, Option, none, some, if◌then◌else◌}
use kode_operator.Go.{Error, new_error, Exec, ◌>>=◌, ◌>>◌, pure, gets, if_err}
use kode_operator.Api.{Phase, same_phase}

-- `ctrl.Result`
pub record CtrlResult : Type 0 where
  pub requeue : Bool
  pub requeue_after : ℕ

abbrev pub stop : CtrlResult
stop = record { requeue = false; requeue_after = 0 }

abbrev pub requeue : CtrlResult
requeue = record { requeue = true; requeue_after = 0 }

abbrev pub requeue_after : ℕ → CtrlResult
requeue_after n = record { requeue = false; requeue_after = n }

-- What a handler returns.
abbrev pub Next : Type 0
Next = Phase × CtrlResult × Option Error

-- `StateManagedResource`, the methods that the machine calls
pub record StateManagedResource (S : Type 0) : Type 0 where
  pub get_phase : S → Phase
  pub set_phase : Phase → Exec S Unit
  pub update_status : Exec S (Option Error)

abbrev pub StateHandler : Type 0 → Type 0
StateHandler S = Exec S Next

-- `sm.Handlers`
abbrev pub Handlers : Type 0 → Type 0
Handlers S = Phase → Option (StateHandler S)

abbrev pub new_state_machine : {S : Type 0} → Handlers S
new_state_machine p = none

abbrev pub register_handler : {S : Type 0} → Phase → StateHandler S → Handlers S → Handlers S
register_handler phase handler handlers p = if same_phase p phase then some handler else handlers p

module _ {S : Type 0} (resource : StateManagedResource S) (reconcile_interval : ℕ) where
  unfoldable pub move_to : Phase → Phase → CtrlResult → Exec S (CtrlResult × Option Error)
  move_to current next result =
      if not (same_phase next current)
      then (do
        resource.set_phase next
        e ← resource.update_status
        if_err e (λ e. pure (requeue_after reconcile_interval, some e)) (pure (result, none)))
      else pure (result, none)

  -- The message of the error names the phase, which is not modelled.
  unfoldable pub run_handler : Option (StateHandler S) → Phase → Exec S (CtrlResult × Option Error)
  run_handler none current = pure (stop, some (new_error "no handler for phase"))
  run_handler (some handler) current = do
    (next, result, e) ← handler
    if_err e (λ e. pure (requeue_after reconcile_interval, some e)) (move_to current next result)

  unfoldable pub handle_state : Handlers S → Exec S (CtrlResult × Option Error)
  handle_state handlers = do
    current ← gets resource.get_phase
    run_handler (handlers current) current
