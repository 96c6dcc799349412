-- ===== src/Kode/Release/Runs.antt =====
-- The two runs of a Kode's reconciliation that end it.
use kode_operator.Prelude.{
  ℕ, suc, Bool, true, false, not, none, ◌≡◌, ◌==◌, refl, sym, ap, subst, arith, if◌then◌else◌,
}
use kode_operator.Go.{ok, done, pure, ◌>>=◌, ◌>>◌, if_err, if_failed}
use kode_operator.Go.Succeeds.{
  Succeeds, Succeeds-pure, Succeeds-bind, Succeeds-then, Succeeds-if, Succeeds-unless,
  Succeeds-either, Succeeds-skip, Succeeds-gets,
}
use kode_operator.Api.{Kode, KodeStatus, Phase, same_phase, deleting}
use kode_operator.Env.{Env, St, Trace, ask, change}
use kode_operator.KodeObject.{contains_finalizer, set_status, update_status}
use kode_operator.StateMachine.{
  CtrlResult, stop, requeue, requeue_after, move_to, run_handler, handle_state,
}
use kode_operator.Cleanup.{second, keeps_volume}
use kode_operator.Kode.Checks.{check_resources_deleted}
use kode_operator.Kode.Handlers.Deleting.{
  start_cleanup, next_cycle, finish_deletion, handle_deleting_state,
}
use kode_operator.Kode.Reconcile.{
  Reply, handle_generation_mismatch, kode_handlers, run_state_machine, reset_and_run,
  reconcile_live, reconcile_kode, reconcile,
}
use kode_operator.Kode.Deletion.{updates, found}
use kode_operator.Kode.Progress.{with_status}
use kode_operator.Kode.Progress.Runs.{up_to_date}
use kode_operator.Kode.Release.Steps.{
  Parting, SavedParting, JustSaved, JustSaved-SavedParting, Parting-saved, Steady, Parting-status,
  Parting-set_phase, Parting-get, Parting-condition, Parting-event, Parting-save,
}
use kode_operator.Kode.Release.Vanishing.{
  Vanishes, Untouched, Cleared, Untouched-Steady, Cleared-Steady, Freed, Freed-Steady,
  Untouched-check, Cleared-check, Untouched-cleanup, Cleared-remove_finalizer,
}

observed : (n m : ℕ) → (n == m) ≡ true → n ≡ m
observed n m e = ground arith

zero_cycle : (n : ℕ) → n ≡ 0 → (n == 0) ≡ true
zero_cycle n e = ground arith

module _ {env : Env} {k : Kode} (vanishes : Vanishes env k) where
  known : (t : Trace) → found (env.get_kode t k.name k.namespace) ≡ true
  known t = ap found (vanishes.kode t)

  -- The part that all runs of the handler share: the conditions, the status and the check.
  Deleting-ends :
      {W : Trace → Type 0} {Q : St → Type 0} (c : ℕ) (b : Bool) (r : CtrlResult)
      → Steady W
      → ((st : KodeStatus)
          → Succeeds
              (Parting k W deleting k.generation c)
              (Parting k W deleting k.generation c)
              (check_resources_deleted env (with_status k st))
              (ok b))
      → ((st : KodeStatus)
          → st.deletion_cycle ≡ c
          → Succeeds
              (Parting k W deleting k.generation c)
              Q
              (if b
                then finish_deletion env
                else if st.deletion_cycle == 0
                then start_cleanup env
                else next_cycle env)
              (deleting, r, none))
      → Succeeds
          (Parting k W deleting k.generation c)
          Q
          (handle_deleting_state env)
          (deleting, r, none)
  unfolding handle_deleting_state if_err if_failed
  Deleting-ends c b r steady check rest = Succeeds-then _ _ _ (Parting-condition env _ _ _ _) (
      Succeeds-then _ _ _ (Parting-condition env _ _ _ _) (
        Succeeds-then _ _ _ (Parting-condition env _ _ _ _) (
          Succeeds-bind _ _ none _ (Parting-save steady env vanishes.saves) (
            Parting-get _ _
              λ st phase seen cycle. Succeeds-bind _ _ (ok b) _ (check st) (rest st cycle)))))

  -- The reset of the retry count, if it is asked for.
  Reset-ends :
      {W : Trace → Type 0} {p : Phase} {c : ℕ}
      → Steady W
      → (b : Bool)
      → Succeeds
          (Parting k W p k.generation c)
          (Parting k W p k.generation c)
          (if b
            then (change (set_status (λ s. record s { retry_count = 0 })) >> update_status env)
            else pure none)
          none
  Reset-ends steady b =
      Succeeds-either b _ _ _
        (Succeeds-then _ _ _
          (Parting-status (λ s. record s { retry_count = 0 }) (λ x e. e) (λ x e. e) (λ x e. e))
          (Parting-save steady env vanishes.saves))
        (Succeeds-pure _)

  -- A reconciliation of a deleted Kode takes it to phase Deleting before anything else.
  Run-deleted :
      {W : Trace → Type 0} {Q : St → Type 0} (p : Phase) (o c : ℕ) (r : Reply)
      → k.deleted ≡ true
      → contains_finalizer env k ≡ true
      → Steady W
      → ((st : KodeStatus)
          → Succeeds
              (Parting k W deleting o c)
              Q
              (if not (k.generation == o)
                then handle_generation_mismatch env
                else reset_and_run env)
              r)
      → Succeeds (Parting k W p o c) Q (reconcile_kode env) r
  unfolding reconcile_kode reconcile_live if_err
  Run-deleted {W} {Q} p o c r deleted held steady rest = Parting-get _ _ λ st phase seen cycle.
      Succeeds-unless _ _ _ _ (ap not deleted) (
        Succeeds-unless _ _ _ _ (ap not held) (
          Succeeds-then _ _ _ (Parting-set_phase deleting) (
            Succeeds-bind _ _ none _ (Parting-save steady env vanishes.saves) (
              Parting-get _ _
                λ st phase seen cycle. Succeeds-unless _ _ _ _ (ap not held) (rw seen (rest st))))))

  -- A reconciliation reads the Kode as it is saved.
  Rereads :
      {W : Trace → Type 0} {Q : St → Type 0} {p : Phase} {o c : ℕ} {r : Reply}
      → Succeeds (Parting k W p o c) Q (reconcile_kode env) r
      → Succeeds (SavedParting k W p o c) Q (reconcile env k.name k.namespace) r
  unfolding reconcile ask change if_failed ◌>>=◌ ◌>>◌
  Rereads m = record { at = λ s h. rw (vanishes.kode s.calls) (m.at _ h) }

  -- If its generation is observed, the run is a step of handleDeletingState.
  Run-deleting :
      {W : Trace → Type 0} {Q : St → Type 0} (p : Phase) (c : ℕ) (r : CtrlResult)
      → k.deleted ≡ true
      → contains_finalizer env k ≡ true
      → Steady W
      → Succeeds
          (Parting k W deleting k.generation c)
          Q
          (handle_deleting_state env)
          (deleting, r, none)
      → Succeeds (SavedParting k W p k.generation c) Q (reconcile env k.name k.namespace) (r, none)
  unfolding reset_and_run run_state_machine handle_state run_handler move_to kode_handlers
      same_phase if_err
  Run-deleting p c r deleted held steady ends = Rereads (
      Run-deleted p k.generation c (r, none) deleted held steady
        (λ st. Succeeds-unless _ _ _ _ (up_to_date k.generation k.generation refl) (
          Parting-get _ _ λ st phase seen cycle. Succeeds-bind _ _ none _ (Reset-ends steady _) (
            Succeeds-bind _ _ (r, none) _
              (Succeeds-bind _ _ deleting _ (Succeeds-gets _ _ (λ s h. h.phase))
                (Succeeds-bind _ _ (deleting, r, none) _ ends (Succeeds-pure _)))
              (Succeeds-pure _)))))

  -- If it is not, the run observes it and asks for another one.
  Run-unseen :
      {W : Trace → Type 0} (p : Phase) (o c : ℕ)
      → k.deleted ≡ true
      → contains_finalizer env k ≡ true
      → (k.generation == o) ≡ false
      → Steady W
      → Succeeds
          (SavedParting k W p o c)
          (JustSaved k W deleting k.generation c)
          (reconcile env k.name k.namespace)
          (requeue, none)
  unfolding handle_generation_mismatch same_phase if_err
  Run-unseen p o c deleted held differ steady = Rereads (
      Run-deleted p o c (requeue, none) deleted held steady
        (λ st. Succeeds-if _ _ _ _ (ap not differ) (
          Parting-get _ _ λ st phase seen cycle.
            Succeeds-then _ _ _
              (Parting-status (λ s. record s { observed_generation = k.generation }) (λ x e. e)
                (λ x e. refl) (λ x e. e))
              (Succeeds-then _ _ _ (Succeeds-skip _ _ (ap (λ x. not (same_phase x deleting)) phase))
                (Succeeds-bind _ _ none _ (Parting-saved steady env vanishes.saves known)
                  (Succeeds-pure _))))))

  -- The first run starts the cleanup.
  Starts :
      (n : ℕ)
      → keeps_volume k.spec.storage ≡ false
      → Succeeds
          (Parting k (Untouched k n) deleting k.generation 0)
          (JustSaved k (Cleared k n) deleting k.generation 1)
          (start_cleanup env)
          (deleting, requeue_after second, none)
  unfolding start_cleanup if_err if_failed
  Starts n keep =
      Succeeds-then _ _ _
        (Parting-status (λ x. record x { deletion_cycle = 1 }) (λ x e. e) (λ x e. e) (λ x e. refl))
        (Parting-get _ _ λ st phase seen cycle.
          Succeeds-bind _ _ (ok (requeue_after second)) _ (Untouched-cleanup vanishes st keep) (
            Succeeds-then _ _ _ (Parting-event (Cleared-Steady k n) _ _) (
              Succeeds-bind _ _ none _ (Parting-saved (Cleared-Steady k n) env vanishes.saves known)
                (Succeeds-pure _))))

  -- The second run removes the finalizer.
  Finishes :
      (n : ℕ)
      → contains_finalizer env k ≡ true
      → Succeeds
          (Parting k (Cleared k n) deleting k.generation 1)
          (Parting k (Freed env (suc n)) deleting k.generation 1)
          (finish_deletion env)
          (deleting, stop, none)
  unfolding finish_deletion if_err
  Finishes n held = Parting-get _ _ λ st phase seen cycle. Succeeds-if _ _ _ _ held (
      Succeeds-bind _ _ none _ (Cleared-remove_finalizer vanishes)
        (Succeeds-then _ _ _ (Parting-event (Freed-Steady env (suc n)) _ _) (Succeeds-pure _)))

-- How two runs in a row end, each on the Kode as it is saved: none returns an error; after the first all children are
-- deleted and another run is asked for; the second updates the Kode once more than the `n` times before, without the
-- finalizer, in phase Deleting.
abbrev pub Departs : Env → Kode → ℕ → St → Type 0
Departs env k n s =
    let first = reconcile env k.name k.namespace s in
    let final = reconcile env k.name k.namespace first.1 in
    (first.0 ≡ done (requeue_after second, none))
    × SavedParting k (Cleared k n) deleting k.generation 1 first.1
    × (final.0 ≡ done (stop, none))
    × Parting k (Freed env (suc n)) deleting k.generation 1 final.1

departs :
    (env : Env) (k : Kode) (p : Phase) (n : ℕ) (s : St)
    → k.deleted ≡ true
    → contains_finalizer env k ≡ true
    → keeps_volume k.spec.storage ≡ false
    → Vanishes env k
    → SavedParting k (Untouched k n) p k.generation 0 s
    → Departs env k n s
departs env k p n s deleted held keep vanishes h =
    let (e, i) =
      (Run-deleting vanishes p 0 (requeue_after second) deleted held (Untouched-Steady k n) (
          Deleting-ends vanishes 0 false (requeue_after second) (Untouched-Steady k n)
            (Untouched-check vanishes)
            (λ st cycle. Succeeds-if _ _ _ _ (zero_cycle _ cycle) (Starts vanishes n keep)))).at
        s h in
    let (f, j) =
      (Run-deleting vanishes deleting 1 stop deleted held (Cleared-Steady k n) (
          Deleting-ends vanishes 1 true stop (Cleared-Steady k n) (Cleared-check vanishes)
            (λ st cycle. Finishes vanishes n held))).at
        _ (JustSaved-SavedParting _ i) in
    (e, JustSaved-SavedParting _ i, f, j)

-- The two runs, after one that observes the generation if it has not been observed.
abbrev pub DepartsFrom : Bool → Env → Kode → ℕ → St → Type 0
DepartsFrom true env k n s = Departs env k n s
DepartsFrom false env k n s =
    ((reconcile env k.name k.namespace s).0 ≡ done (requeue, none))
    × Departs env k n (reconcile env k.name k.namespace s).1

-- A Kode with a deletion timestamp and the finalizer, in whatever phase, whose deletion no cycle has begun, is released in two runs of
-- Reconcile, each of which reads it again: the first makes the delete calls of all its children, the second updates the Kode
-- once, without the finalizer. If its generation has not been observed, a run before these observes it. No
-- run returns an error. Its volume is not to be kept; the API server takes every call, gives back the status that was
-- saved last, has the StatefulSet until it is told to delete it, and has no child after its deletion.
pub reconcile-Departs :
    (env : Env) (k : Kode) (p : Phase) (o : ℕ) (s : St)
    → k.deleted ≡ true
    → contains_finalizer env k ≡ true
    → keeps_volume k.spec.storage ≡ false
    → Vanishes env k
    → SavedParting k (Untouched k (updates s.calls)) p o 0 s
    → DepartsFrom (k.generation == o) env k (updates s.calls) s
reconcile-Departs env k p o s deleted held keep vanishes h = go (k.generation == o) refl
  where
    n : ℕ
    n = updates s.calls

    go : (b : Bool) → (k.generation == o) ≡ b → DepartsFrom b env k n s
    go true e =
        departs env k p n s deleted held keep vanishes
          (subst (λ x. SavedParting k (Untouched k n) p x 0 s) (sym (observed k.generation o e)) h)
    go false e =
        let (f, i) = (Run-unseen vanishes p o 0 deleted held e (Untouched-Steady k n)).at s h in
        (f, departs env k deleting n _ deleted held keep vanishes (JustSaved-SavedParting _ i))
