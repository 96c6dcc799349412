-- ===== src/Kode/Progress/Runs.antt =====
-- The runs of a Kode's reconciliation that take it from Pending to Active.
use kode_operator.Prelude.{
  ℕ, Bool, true, false, not, none, some, ltb, ◌≡◌, ◌==◌, ◌&&◌, refl, ap, sym, subst, ◌∙◌, get_or,
  arith,
}
use kode_operator.Go.{◌>>=◌, ◌>>◌, ok, done, if_err, if_failed, when}
use kode_operator.Go.Succeeds.{
  Succeeds, Succeeds-pure, Succeeds-bind, Succeeds-then, Succeeds-if, Succeeds-unless,
  Succeeds-gets,
}
use kode_operator.Api.{
  Kode, Phase, Template, ContainerTemplateSharedSpec, same_phase, pending, configuring,
  provisioning, active,
}
use kode_operator.Objects.{StatefulSetSpec}
use kode_operator.Env.{Env, St, ask, change}
use kode_operator.KodeObject.Saved.{last_saved}
use kode_operator.Validation.{validate_kode}
use kode_operator.StateMachine.{
  CtrlResult, stop, requeue, StateHandler, move_to, run_handler, handle_state,
}
use kode_operator.Kode.Config.{init_kode_resources_config}
use kode_operator.Kode.Changes.{no_changes}
use kode_operator.Kode.Handlers.Create.{
  handle_pending_state, handle_configuring_state, handle_provisioning_state, finish_provisioning,
}
use kode_operator.Kode.Reconcile.{
  kode_resource, kode_handlers, run_state_machine, reset_and_run, reconcile_live, reconcile_kode,
  reconcile,
}
use kode_operator.Kode.Progress.{Stage, Saved, Serves, Accepted, with_status}
use kode_operator.Kode.Progress.Steps.{
  Succeeds-event, Succeeds-get, Succeeds-condition, Succeeds-save, Succeeds-saved, Succeeds-status,
  Succeeds-set_phase, Succeeds-templates,
}
use kode_operator.Kode.Progress.Ready.{Ready-check}
use kode_operator.Kode.Progress.Written.{all_missing, Missing-changes, Writes-all, Valid-all}

pub up_to_date : (n m : ℕ) → m ≡ n → not (n == m) ≡ false
up_to_date n m e = ground arith

pub untried : (b : Bool) (n : ℕ) → n ≡ 0 → (b && ltb 0 n) ≡ false
untried b n e = ground arith

module _ {env : Env} {k : Kode} {t : Template} {spec : ContainerTemplateSharedSpec}
    {built : StatefulSetSpec} (accepted : Accepted env k t spec built)
    (serves : Serves env k t built) where
  Pending-ends :
      Succeeds
        (Stage k t built pending false false false)
        (Stage k t built pending false false false)
        (handle_pending_state env)
        (configuring, requeue, none)
  unfolding handle_pending_state validate_kode if_err
  Pending-ends = Succeeds-get k t _ _ λ st phase seen no_retry. Succeeds-if _ _ _ _ accepted.valid (
      Succeeds-then _ _ _ (Succeeds-condition k t env _ _ _ _) (
        Succeeds-then _ _ _ (Succeeds-condition k t env _ _ _ _) (
          Succeeds-then _ _ _ (Succeeds-condition k t env _ _ _ _)
            (Succeeds-bind _ _ none _ (Succeeds-save k t env serves) (Succeeds-pure _)))))

  Configuring-ends :
      Succeeds
        (Stage k t built configuring false false false)
        (Stage k t built configuring true true true)
        (handle_configuring_state env)
        (provisioning, requeue, none)
  unfolding handle_configuring_state if_err if_failed when no_changes init_kode_resources_config
  Configuring-ends = Succeeds-bind _ _ (ok t) _ (Succeeds-templates k t env serves accepted) (
      Succeeds-get k t _ _ λ st phase seen no_retry.
        Succeeds-bind _ _ (ok all_missing) _ (Missing-changes accepted serves) (
          Succeeds-then _ _ _ (Succeeds-event k t _ _) (
            Succeeds-bind _ _ none _ (Writes-all accepted serves) (
              Succeeds-then _ _ _ (Succeeds-event k t _ _) (
                Succeeds-bind _ _ none _ (Valid-all accepted serves) (
                  Succeeds-then _ _ _ (Succeeds-condition k t env _ _ _ _) (
                    Succeeds-then _ _ _ (Succeeds-condition k t env _ _ _ _) (
                      Succeeds-then _ _ _ (Succeeds-condition k t env _ _ _ _) (
                        Succeeds-bind _ _ none _ (Succeeds-save k t env serves)
                          (Succeeds-pure _))))))))))

  Finish-ends :
      (port : ℕ)
      → Succeeds
          (Stage k t built provisioning true true true)
          (Stage k t built provisioning true true true)
          (finish_provisioning env port)
          (active, stop, none)
  unfolding finish_provisioning if_err
  Finish-ends port = Succeeds-then _ _ _ (Succeeds-condition k t env _ _ _ _) (
      Succeeds-then _ _ _ (Succeeds-condition k t env _ _ _ _) (
        Succeeds-then _ _ _ (Succeeds-condition k t env _ _ _ _) (
          Succeeds-then _ _ _
            (Succeeds-status k t (λ x. record x { kode_port = port }) (λ x. refl) (λ x. refl)
              (λ x. refl))
            (Succeeds-bind _ _ none _ (Succeeds-save k t env serves)
              (Succeeds-then _ _ _ (Succeeds-event k t _ _) (Succeeds-pure _))))))

  Provisioning-ends :
      Succeeds
        (Stage k t built provisioning true true true)
        (Stage k t built provisioning true true true)
        (handle_provisioning_state env)
        (active, stop, none)
  unfolding handle_provisioning_state if_failed init_kode_resources_config
  Provisioning-ends = Succeeds-bind _ _ (ok t) _ (Succeeds-templates k t env serves accepted) (
      Succeeds-get k t _ _ λ st phase seen no_retry.
        Succeeds-bind _ _ (ok true) _ (Ready-check accepted serves st) (Finish-ends _))

  -- The machine stores the phase that the handler asks for, and saves it.
  Machine-moves :
      (interval : ℕ) (p q : Phase) (r : CtrlResult) {a b c x y z : Bool} (handler : StateHandler St)
      → same_phase q p ≡ false
      → Succeeds (Stage k t built p a b c) (Stage k t built p x y z) handler (q, r, none)
      → Succeeds
          (Stage k t built p a b c)
          (λ s. Stage k t built q x y z s × (last_saved s.calls ≡ some s.kode.status))
          (run_handler (kode_resource env) interval (some handler) p)
          (r, none)
  unfolding run_handler move_to if_err
  Machine-moves interval p q r handler differ ends =
      Succeeds-bind _ _ (q, r, none) _ ends
        (Succeeds-if _ _ _ _ (ap not differ) (
          Succeeds-then _ _ _ (Succeeds-set_phase k t q)
            (Succeeds-bind _ _ none _ (Succeeds-saved k t env serves) (Succeeds-pure _))))

  -- A reconciliation of the Kode in memory is a step of the machine.
  Kode-moves :
      (p q : Phase) (r : CtrlResult) {a b c x y z : Bool} (handler : StateHandler St)
      → kode_handlers env p ≡ some handler
      → same_phase q p ≡ false
      → Succeeds (Stage k t built p a b c) (Stage k t built p x y z) handler (q, r, none)
      → Succeeds
          (Stage k t built p a b c)
          (λ s. Stage k t built q x y z s × (last_saved s.calls ≡ some s.kode.status))
          (reconcile_kode env)
          (r, none)
  unfolding reconcile_kode reconcile_live reset_and_run run_state_machine handle_state if_err
  Kode-moves p q r handler registered differ ends = Succeeds-get k t _ _ λ st phase seen no_retry.
      Succeeds-if _ _ _ _ (ap not accepted.live) (
        Succeeds-get k t _ _ λ st phase seen no_retry.
          Succeeds-unless _ _ _ _ (ap not accepted.held) (
            Succeeds-unless _ _ _ _ (up_to_date k.generation st.observed_generation seen) (
              Succeeds-get k t _ _ λ st phase seen no_retry.
                Succeeds-bind _ _ none _
                  (Succeeds-unless _ _ _ _ (untried _ st.retry_count no_retry) (Succeeds-pure _))
                  (Succeeds-bind _ _ (r, none) _
                    (Succeeds-bind _ _ p _ (Succeeds-gets _ _ (λ s h. h.phase)) (
                      rw registered
                        (Machine-moves env.reconcile_interval p q r handler differ ends)))
                    (Succeeds-pure _)))))

  -- A Kode whose status in memory is the one that was saved last.
  Saved-Stage :
      {q : Phase} {x y z : Bool} (s : St)
      → Stage k t built q x y z s
      → last_saved s.calls ≡ some s.kode.status
      → Saved k t built q x y z s
  Saved-Stage {q} {x} {y} {z} s h e =
      subst (λ m. Stage k t built q x y z (record s { kode = m }))
        (h.same ∙ ap (λ o. with_status k (get_or o k.status)) (sym e)) h

  -- A reconciliation reads the Kode as it is saved, and leaves it saved.
  pub Run-moves :
      (p q : Phase) (r : CtrlResult) {a b c x y z : Bool} (handler : StateHandler St)
      → kode_handlers env p ≡ some handler
      → same_phase q p ≡ false
      → Succeeds (Stage k t built p a b c) (Stage k t built p x y z) handler (q, r, none)
      → Succeeds
          (Saved k t built p a b c)
          (Saved k t built q x y z)
          (reconcile env k.name k.namespace)
          (r, none)
  unfolding reconcile ask change if_failed ◌>>=◌ ◌>>◌
  Run-moves p q r handler registered differ ends = record {
    at = λ s h. rw (serves.kode s.calls) (
        let (e, i) = (Kode-moves p q r handler registered differ ends).at _ h in
        (e, Saved-Stage _ (i.0) (i.1)));
  }

  Run-pending :
      Succeeds
        (Saved k t built pending false false false)
        (Saved k t built configuring false false false)
        (reconcile env k.name k.namespace)
        (requeue, none)
  unfolding kode_handlers same_phase
  Run-pending = Run-moves pending configuring requeue _ refl refl Pending-ends

  Run-configuring :
      Succeeds
        (Saved k t built configuring false false false)
        (Saved k t built provisioning true true true)
        (reconcile env k.name k.namespace)
        (requeue, none)
  unfolding kode_handlers same_phase
  Run-configuring = Run-moves configuring provisioning requeue _ refl refl Configuring-ends

  Run-provisioning :
      Succeeds
        (Saved k t built provisioning true true true)
        (Saved k t built active true true true)
        (reconcile env k.name k.namespace)
        (stop, none)
  unfolding kode_handlers same_phase
  Run-provisioning = Run-moves provisioning active stop _ refl refl Provisioning-ends

-- How three runs in a row end, each on the Kode as it is saved by the run before: none returns an error, the first two ask for
-- another run, the third for none, and the Kode is saved in phase Active then, its three objects stored as they should be.
abbrev pub ReachesActive : Env → Kode → Template → StatefulSetSpec → St → Type 0
ReachesActive env k t built s =
    let first = reconcile env k.name k.namespace s in
    let second = reconcile env k.name k.namespace first.1 in
    let third = reconcile env k.name k.namespace second.1 in
    (first.0 ≡ done (requeue, none))
    × (second.0 ≡ done (requeue, none))
    × (third.0 ≡ done (stop, none))
    × Saved k t built active true true true third.1

-- A Kode without storage that is saved in phase Pending and accepted, with its template in the cache and none of its
-- objects stored, reaches phase Active in three runs of Reconcile, each of which reads it again, if the API server takes every
-- call and holds what the calls have written, and the pods become ready. The new phase is saved, and the three objects
-- are stored as the ensure functions make them.
pub reconcile-ReachesActive :
    (env : Env) (k : Kode) (t : Template) (spec : ContainerTemplateSharedSpec)
    (built : StatefulSetSpec) (s : St)
    → Accepted env k t spec built
    → Serves env k t built
    → Saved k t built pending false false false s
    → ReachesActive env k t built s
reconcile-ReachesActive env k t spec built s accepted serves h =
    let (e, i) = (Run-pending accepted serves).at s h in
    let (f, j) = (Run-configuring accepted serves).at _ i in
    let (g, l) = (Run-provisioning accepted serves).at _ j in (e, f, g, l)
