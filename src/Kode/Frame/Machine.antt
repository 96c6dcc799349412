-- ===== src/Kode/Frame/Machine.antt =====
-- The state machine over the handlers of a Kode: a predicate that the handlers and a change of the phase keep is kept by
-- a run of the machine.
use kode_operator.Prelude.{ℕ, false, none, some, ◌≡◌, sym, false≢true}
use kode_operator.Go.{pure}
use kode_operator.Go.Keeps.{
  Keeps, Keeps-if, Keeps-then, Keeps-bind, Keeps-if_err, Keeps-pure, keeps_rules,
}
use kode_operator.Api.{
  Kode, Phase, same_phase, pending, configuring, provisioning, active, updating, deleting, failed,
  phase_unknown, phase_other,
}
use kode_operator.Objects.{Resource}
use kode_operator.Env.{Env, St, delete, update, note}
use kode_operator.Env.Frame.{Keeps-change}
use kode_operator.KodeObject.{set_status, set_phase}
use kode_operator.StateMachine.{CtrlResult, StateHandler, move_to, run_handler}
use kode_operator.Kode.Frame.{Calm}
use kode_operator.Kode.Frame.Reads.{Stable-update_status}
use kode_operator.Kode.Frame.Handlers.{
  Calm-handle_pending_state, Calm-handle_configuring_state, Calm-handle_provisioning_state,
  Calm-handle_active_state, Calm-handle_updating_state, Calm-handle_deleting_state,
  Calm-handle_failed_state, Calm-handle_unknown_state,
}
use kode_operator.Kode.Reconcile.{kode_resource, kode_handlers}

module _ (env : Env) (interval : ℕ) {P : St → Type 0} (calm : Calm P)
    (phasing : (q : Phase) (s : St)
      → P s
      → P (record s { kode = set_status (λ x. record x { phase = q }) s.kode })) where
  Calm-set_phase : (q : Phase) → Keeps P (set_phase q)
  Calm-set_phase q = Keeps-change _ (phasing q)

  Calm-move_to :
      (p q : Phase) (r : CtrlResult) → Keeps P (move_to (kode_resource env) interval p q r)
  unfolding move_to
  Calm-move_to p q r =
      Keeps-if _ _ _
        (Keeps-then _ _ (Calm-set_phase q) (
          Keeps-bind _ _ (Stable-update_status env calm.stable)
            (λ e. Keeps-if_err e _ _ (λ x. Keeps-pure _) (Keeps-pure _))))
        (Keeps-pure _)

  Calm-run :
      (h : StateHandler St) (p : Phase)
      → Keeps P h
      → Keeps P (run_handler (kode_resource env) interval (some h) p)
  unfolding run_handler
  Calm-run h p k = search (keeps_rules, Calm-move_to) depth 20

  Calm-unregistered : (p : Phase) → Keeps P (run_handler (kode_resource env) interval none p)
  unfolding run_handler pure
  Calm-unregistered p = record { at = λ s h. h }

  -- In every phase but Deleting.
  pub Calm-run_live :
      (p : Phase)
      → same_phase p deleting ≡ false
      → Keeps P (run_handler (kode_resource env) interval (kode_handlers env p) p)
  unfolding kode_handlers same_phase
  Calm-run_live pending e = Calm-run _ _ (Calm-handle_pending_state env calm)
  Calm-run_live configuring e = Calm-run _ _ (Calm-handle_configuring_state env calm)
  Calm-run_live provisioning e = Calm-run _ _ (Calm-handle_provisioning_state env calm)
  Calm-run_live active e = Calm-run _ _ (Calm-handle_active_state env calm)
  Calm-run_live updating e = Calm-run _ _ (Calm-handle_updating_state env calm)
  Calm-run_live deleting e = elim (false≢true (sym e)) [ ]
  Calm-run_live failed e = Calm-run _ _ (Calm-handle_failed_state env calm)
  Calm-run_live phase_unknown e =
      Calm-run _ _ (Calm-handle_unknown_state env calm (λ q s m h. phasing q s h))
  Calm-run_live phase_other e = Calm-unregistered _

  pub Calm-run_deleting :
      ((r : Resource) (s : St) → P s → P (note (delete r) s))
      → ((k : Kode) (s : St) → P s → P (note (update k) s))
      → Keeps P (run_handler (kode_resource env) interval (kode_handlers env deleting) deleting)
  unfolding kode_handlers same_phase
  Calm-run_deleting deletes updates =
      Calm-run _ _ (Calm-handle_deleting_state env calm deletes updates)
