-- ===== src/Kode/Phases/Machine.antt =====
-- HandleState over the registered handlers, and Reconcile.
use kode_operator.Prelude.{ℕ, String, ◌≡◌, refl, false, Option, none, some}
use kode_operator.Go.{◌>>=◌, pure, gets, if_err}
use kode_operator.Go.Keeps.{Keeps, Keeps-bind_of, Yields, keeps_rules}
use kode_operator.Api.{
  Phase, same_phase, pending, configuring, provisioning, active, updating, deleting, failed,
  phase_unknown, phase_other,
}
use kode_operator.Env.{Env, St}
use kode_operator.Env.Frame.{Keeps-change, env_rules}
use kode_operator.Condition.{ConditionType, ConditionStatus}
use kode_operator.KodeObject.{set_phase, set_condition, add_finalizer, update_status}
use kode_operator.KodeObject.Laws.{Keeps-update_status, Keeps-add_finalizer, Keeps-set_condition}
use kode_operator.StateMachine.{
  CtrlResult, requeue_after, Next, StateHandler, move_to, run_handler, handle_state,
}
use kode_operator.Kode.Reconcile.{
  kode_resource, kode_handlers, initialize, handle_generation_mismatch, reset_and_run,
  run_state_machine, reconcile_live, reconcile_kode,
}
use kode_operator.Kode.Phases.{
  Edge, configure, provision, provisioned, update, updated, recover_pending, recover_configuring,
  recover_provisioning, resolve_deleting, resolve_pending, resolve_configuring,
  resolve_provisioning, resolve_active, resolve_updating, Moves, stay, along, InMove, NextOf, moves,
  fails,
}
use kode_operator.Kode.Phases.Handlers.{
  NextOf-handle_pending_state, NextOf-handle_configuring_state, NextOf-handle_provisioning_state,
  NextOf-handle_active_state, NextOf-handle_updating_state, NextOf-handle_deleting_state,
  NextOf-handle_failed_state, NextOf-handle_unknown_state,
}
use kode_operator.Kode.Phases.Keeps.{InMove-Calm}
use kode_operator.Kode.Frame.Handlers.{
  Calm-handle_pending_state, Calm-handle_configuring_state, Calm-handle_provisioning_state,
  Calm-handle_active_state, Calm-handle_updating_state, Calm-handle_deleting_state,
  Calm-handle_failed_state, Calm-handle_unknown_state,
}

-- What is known of the handler of a phase.
record Good (p : Phase) (h : StateHandler St) : Type 0 where
  yields : Yields (NextOf p) h
  keeps : Keeps (InMove p) h

data Registered (p : Phase) : Option (StateHandler St) → Type 0 where
  unregistered : Registered p none
  registered : {h : StateHandler St} → Good p h → Registered p (some h)

module _ (env : Env) where
  kode_handlers-Registered : (p : Phase) → Registered p (kode_handlers env p)
  unfolding kode_handlers same_phase
  kode_handlers-Registered pending = registered (record {
    yields = NextOf-handle_pending_state env;
    keeps = Calm-handle_pending_state env InMove-Calm;
  })
  kode_handlers-Registered configuring = registered (record {
    yields = NextOf-handle_configuring_state env;
    keeps = Calm-handle_configuring_state env InMove-Calm;
  })
  kode_handlers-Registered provisioning = registered (record {
    yields = NextOf-handle_provisioning_state env;
    keeps = Calm-handle_provisioning_state env InMove-Calm;
  })
  kode_handlers-Registered active = registered (record {
    yields = NextOf-handle_active_state env;
    keeps = Calm-handle_active_state env InMove-Calm;
  })
  kode_handlers-Registered updating = registered (record {
    yields = NextOf-handle_updating_state env;
    keeps = Calm-handle_updating_state env InMove-Calm;
  })
  kode_handlers-Registered deleting = registered (record {
    yields = NextOf-handle_deleting_state env;
    keeps = Calm-handle_deleting_state env InMove-Calm (λ r s h. h) (λ k s h. h);
  })
  kode_handlers-Registered failed = registered (record {
    yields = NextOf-handle_failed_state env;
    keeps = Calm-handle_failed_state env InMove-Calm;
  })
  kode_handlers-Registered phase_unknown = registered (record {
    yields = NextOf-handle_unknown_state env;
    keeps = Calm-handle_unknown_state env InMove-Calm (λ q s m h. m);
  })
  kode_handlers-Registered phase_other = unregistered

  InMove-status : {p : Phase} → Keeps (InMove p) (update_status env)
  InMove-status {p} = Keeps-update_status env {P = InMove p} (λ k s h. h)

  module _ (interval : ℕ) {p : Phase} where
    InMove-move_to :
        (q : Phase) (r : CtrlResult)
        → Moves p q
        → Keeps (InMove p) (move_to (kode_resource env) interval p q r)
    unfolding move_to
    InMove-move_to q r m = search (keeps_rules, Keeps-change, InMove-status) depth 20

    InMove-run_handler :
        (o : Option (StateHandler St))
        → Registered p o
        → Keeps (InMove p) (run_handler (kode_resource env) interval o p)
    unfolding run_handler if_err
    InMove-run_handler none u = search keeps_rules
    InMove-run_handler (some h) (registered g) = Keeps-bind_of (NextOf p) _ _ g.keeps g.yields after
      where
        after :
            (n : Next)
            → NextOf p n
            → Keeps (InMove p) (
                if_err
                  (n.2)
                  (λ e. pure (requeue_after interval, some e))
                  (move_to (kode_resource env) interval p (n.0) (n.1)))
        after n (moves q r m) = search (keeps_rules, InMove-move_to q r m)
        after n (fails q r e) = search keeps_rules

-- HandleState of a Kode takes at most one edge of the machine, whatever the handlers meet.
pub handle_state-Moves :
    (env : Env) (interval : ℕ) (s : St)
    → Moves s.kode.status.phase
        (handle_state (kode_resource env) interval (kode_handlers env) s).1.kode.status.phase
unfolding handle_state ◌>>=◌ gets
handle_state-Moves env interval s =
    (InMove-run_handler env interval _ (kode_handlers-Registered env s.kode.status.phase)).at s stay

abbrev IsLive : Phase → Type 0
IsLive p = same_phase p failed ≡ false

Edge-IsLive : {p q : Phase} → Edge p q → IsLive q
unfolding same_phase
Edge-IsLive configure = refl
Edge-IsLive provision = refl
Edge-IsLive provisioned = refl
Edge-IsLive update = refl
Edge-IsLive updated = refl
Edge-IsLive recover_pending = refl
Edge-IsLive recover_configuring = refl
Edge-IsLive recover_provisioning = refl
Edge-IsLive resolve_deleting = refl
Edge-IsLive resolve_pending = refl
Edge-IsLive resolve_configuring = refl
Edge-IsLive resolve_provisioning = refl
Edge-IsLive resolve_active = refl
Edge-IsLive resolve_updating = refl

Moves-IsLive : {p q : Phase} → Moves p q → IsLive p → IsLive q
Moves-IsLive stay h = h
Moves-IsLive (along e) h = Edge-IsLive e

module _ (env : Env) where
  abbrev Live : St → Type 0
  Live s = IsLive s.kode.status.phase

  Live-update_status : Keeps Live (update_status env)
  Live-update_status = Keeps-update_status env {P = Live} (λ k s h. h)

  Live-add_finalizer : Keeps Live (add_finalizer env)
  Live-add_finalizer = Keeps-add_finalizer env {P = Live} (λ k s h. h)

  Live-set_condition :
      (t : ConditionType) (status : ConditionStatus) (reason message : String)
      → Keeps Live (set_condition env t status reason message)
  Live-set_condition t status reason message =
      Keeps-set_condition env t status reason message (λ f s h. h)

  Live-set_phase : (p : Phase) → IsLive p → Keeps Live (set_phase p)
  Live-set_phase p h = Keeps-change _ (λ s u. h)

  Live-handle_state :
      (interval : ℕ) → Keeps Live (handle_state (kode_resource env) interval (kode_handlers env))
  Live-handle_state interval = record {
    at = λ s h. Moves-IsLive (handle_state-Moves env interval s) h;
  }

  updating-IsLive : IsLive updating
  unfolding same_phase
  updating-IsLive = refl

  deleting-IsLive : IsLive deleting
  unfolding same_phase
  deleting-IsLive = refl

  Live-initialize : Keeps Live (initialize env)
  unfolding initialize same_phase
  Live-initialize = search (keeps_rules, env_rules, Live-add_finalizer, Live-update_status) depth 30

  Live-reconcile_live : Keeps Live (reconcile_live env)
  unfolding reconcile_live handle_generation_mismatch reset_and_run run_state_machine
  Live-reconcile_live =
      search
        (
          keeps_rules, env_rules, Live-initialize, Live-update_status, Live-set_condition,
          Live-handle_state, Live-set_phase, updating-IsLive,
        )
        depth 40

  Live-reconcile_kode : Keeps Live (reconcile_kode env)
  unfolding reconcile_kode
  Live-reconcile_kode =
      search
        (
          keeps_rules, env_rules, Live-reconcile_live, Live-update_status, Live-set_phase,
          deleting-IsLive,
        )
        depth 40

-- A reconciliation of a Kode that is not in phase Failed leaves it in another phase than Failed,
-- whatever the API server answers and whatever error the handlers report.
pub reconcile_kode-never_fails :
    (env : Env) (s : St)
    → same_phase s.kode.status.phase failed ≡ false
    → same_phase (reconcile_kode env s).1.kode.status.phase failed ≡ false
reconcile_kode-never_fails env s h = (Live-reconcile_kode env).at s h
