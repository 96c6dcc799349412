-- ===== src/Kode/Progress/Settled.antt =====
-- The run of a Kode in phase Updating that finds all as it should be.
use kode_operator.Prelude.{
  str_eq_refl, true, false, not, none, ◌∷◌, all, ◌≡◌, ◌||◌, refl, sym, ap, ◌∙◌,
}
use kode_operator.Go.{ok, done, if_err, if_failed}
use kode_operator.Go.Succeeds.{
  Succeeds, Succeeds-pure, Succeeds-still, Succeeds-deref, Succeeds-bind, Succeeds-then,
  Succeeds-if,
}
use kode_operator.Api.{
  Kode, Phase, Template, ContainerTemplateSharedSpec, same_phase, updating, active, is_empty,
}
use kode_operator.Api.Names.{get_secret_name, get_service_name, get_stateful_set_name}
use kode_operator.Objects.{StatefulSetSpec}
use kode_operator.Env.{Env, St, change}
use kode_operator.KodeObject.{set_status}
use kode_operator.StateMachine.{requeue}
use kode_operator.Kode.Config.{init_kode_resources_config, credentials}
use kode_operator.Kode.Ensure.{construct_service}
use kode_operator.Kode.Changes.{
  Changes, no_changes, same_map, same_list, same_port, detect_secret_changes,
  detect_service_changes, detect_stateful_set_changes, detect_changes,
}
use kode_operator.Kode.Current.{is_current, images_differ-same, delete_outdated_pods-current}
use kode_operator.Kode.Idempotence.{same_map-secret, has_required_labels-labels, ==-refl}
use kode_operator.Kode.Handlers.Updating.{nothing_to_update, handle_updating_state}
use kode_operator.Kode.Reconcile.{kode_handlers, reconcile}
use kode_operator.Kode.Progress.{served, started, Stage, Saved, Serves, Accepted, new_secret}
use kode_operator.Kode.Progress.Steps.{
  Stage-status, Succeeds-ask, Succeeds-get, Succeeds-condition, Succeeds-save, Succeeds-templates,
}
use kode_operator.Kode.Progress.Ready.{live_stateful_set}
use kode_operator.Kode.Progress.Runs.{Run-moves}

abbrev nothing : Changes
nothing = record { secret = false; service = false; stateful_set = false; pvc = false }

same_service :
    (k : Kode) (t : Template)
    → (let c = construct_service (init_kode_resources_config k t) in
        not (same_list same_port c.ports c.ports) || not (same_map c.selector c.selector))
      ≡ false
unfolding construct_service init_kode_resources_config same_list same_port same_map
same_service k t = simp (has_required_labels-labels, str_eq_refl, ==-refl) refl

module _ {env : Env} {k : Kode} {t : Template} {spec : ContainerTemplateSharedSpec}
    {built : StatefulSetSpec} (accepted : Accepted env k t spec built)
    (serves : Serves env k t built) where
  module _ {p : Phase} where
    Same-secret :
        Succeeds
          (Stage k t built p true true true)
          (Stage k t built p true true true)
          (detect_secret_changes env (init_kode_resources_config k t))
          (ok false)
    unfolding detect_secret_changes get_secret_name if_failed credentials
    Same-secret = Succeeds-get k t _ _ λ st phase seen no_retry.
        Succeeds-bind _ _ (ok (new_secret k t)) _
          (Succeeds-ask _ _ (λ s h. serves.secret s.calls ∙ ap (served serves.message) h.secret))
          (rw (same_map-secret (credentials k)) (Succeeds-pure _))

    Same-service :
        Succeeds
          (Stage k t built p true true true)
          (Stage k t built p true true true)
          (detect_service_changes env (init_kode_resources_config k t))
          (ok false)
    unfolding detect_service_changes get_service_name if_failed
    Same-service = Succeeds-get k t _ _ λ st phase seen no_retry.
        Succeeds-bind _ _ (ok (construct_service (init_kode_resources_config k t))) _
          (Succeeds-ask _ _ (λ s h. serves.service s.calls ∙ ap (served serves.message) h.service))
          (rw (same_service k t) (Succeeds-pure _))

    module _
        (current : all (is_current built.template.containers) (serves.pod ∷ serves.pods)
          ≡ true) where
      Same-stateful_set :
          Succeeds
            (Stage k t built p true true true)
            (Stage k t built p true true true)
            (detect_stateful_set_changes env (init_kode_resources_config k t))
            (ok false)
      unfolding detect_stateful_set_changes get_stateful_set_name if_failed
          init_kode_resources_config
      Same-stateful_set = Succeeds-get k t _ _ λ st phase seen no_retry.
          Succeeds-bind _ _ (ok (live_stateful_set accepted serves)) _
            (Succeeds-ask _ _ (λ s h.
              serves.stateful_set s.calls
              ∙ ap (λ o. served serves.message (started o)) h.stateful_set))
            (Succeeds-bind _ _ spec _ (Succeeds-deref _ _ accepted.template) (
              rw (accepted.builds st, images_differ-same built.template.containers, str_eq_refl)
                (Succeeds-bind _ _ (ok (serves.pod ∷ serves.pods)) _
                  (Succeeds-ask _ _ (λ s h. serves.running s.calls))
                  (Succeeds-bind _ _ false _
                    (Succeeds-still _ _ (λ s h.
                      delete_outdated_pods-current env k.namespace built.template.containers _ false
                        s current))
                    (Succeeds-pure _)))))

      Same-changes :
          Succeeds
            (Stage k t built p true true true)
            (Stage k t built p true true true)
            (detect_changes env (init_kode_resources_config k t))
            (ok nothing)
      unfolding detect_changes if_failed is_empty
      Same-changes = Succeeds-bind _ _ (ok false) _ Same-secret (
          Succeeds-bind _ _ (ok false) _ Same-service (
            Succeeds-bind _ _ (ok false) _ Same-stateful_set (
              Succeeds-get k t _ _ λ st phase seen no_retry.
                Succeeds-bind _ _ (ok false) _
                  (Succeeds-if _ _ _ _ (ap is_empty accepted.no_storage) (Succeeds-pure _))
                  (Succeeds-pure _))))

  Observes :
      Succeeds
        (Stage k t built updating true true true)
        (Stage k t built updating true true true)
        (change (set_status (λ x. record x { observed_generation = k.generation })))
        tt
  unfolding change
  Observes = record {
    at = λ s h. (
      refl,
      Stage-status k t updating updating (λ x. record x { observed_generation = k.generation }) s h
          h.phase (sym h.seen) refl,
    );
  }

  Nothing-ends :
      Succeeds
        (Stage k t built updating true true true)
        (Stage k t built updating true true true)
        (nothing_to_update env)
        (active, requeue, none)
  unfolding nothing_to_update if_err
  Nothing-ends = Succeeds-then _ _ _ (Succeeds-get k t _ _ λ st phase seen no_retry. Observes) (
      Succeeds-then _ _ _ (Succeeds-condition k t env _ _ _ _) (
        Succeeds-then _ _ _ (Succeeds-condition k t env _ _ _ _)
          (Succeeds-bind _ _ none _ (Succeeds-save k t env serves) (Succeeds-pure _))))

  Updating-ends :
      all (is_current built.template.containers) (serves.pod ∷ serves.pods) ≡ true
      → Succeeds
          (Stage k t built updating true true true)
          (Stage k t built updating true true true)
          (handle_updating_state env)
          (active, requeue, none)
  unfolding handle_updating_state if_failed no_changes init_kode_resources_config
  Updating-ends current = Succeeds-bind _ _ (ok t) _ (Succeeds-templates k t env serves accepted) (
      Succeeds-get k t _ _ λ st phase seen no_retry.
        Succeeds-bind _ _ (ok nothing) _ (Same-changes current) Nothing-ends)

  Run-updating :
      all (is_current built.template.containers) (serves.pod ∷ serves.pods) ≡ true
      → Succeeds
          (Saved k t built updating true true true)
          (Saved k t built active true true true)
          (reconcile env k.name k.namespace)
          (requeue, none)
  unfolding kode_handlers same_phase
  Run-updating current =
      Run-moves accepted serves updating active requeue _ refl refl (Updating-ends current)

-- A Kode without storage that is saved in phase Updating and accepted, with its template in the cache and its objects
-- stored as the ensure functions make them, goes back to phase Active in one run of Reconcile, which returns no error and
-- leaves the objects as they are, if the API server takes every call and holds what the calls have
-- written, and the pods run the images of the containers. The new phase is saved.
pub reconcile-Settles :
    (env : Env) (k : Kode) (t : Template) (spec : ContainerTemplateSharedSpec)
    (built : StatefulSetSpec) (s : St)
    → Accepted env k t spec built
    → (serves : Serves env k t built)
    → all (is_current built.template.containers) (serves.pod ∷ serves.pods) ≡ true
    → Saved k t built updating true true true s
    → ((reconcile env k.name k.namespace s).0 ≡ done (requeue, none))
      × Saved k t built active true true true (reconcile env k.name k.namespace s).1
reconcile-Settles env k t spec built s accepted serves current h =
    (Run-updating accepted serves current).at s h
