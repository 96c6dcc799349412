-- ===== src/Kode/Progress/Ready.antt =====
-- The objects of a new Kode, once written, are found ready.
use kode_operator.Prelude.{
  ℕ, str_eq, any, lookup, true, false, Option, none, some, ◌∷◌, ◌≡◌, ◌==◌, ap, ◌∙◌, arith, not,
  if◌then◌else◌, is_none,
}
use kode_operator.Go.{Error, ok, done, pure, if_failed}
use kode_operator.Go.Succeeds.{Succeeds, Succeeds-pure, Succeeds-deref, Succeeds-bind, Succeeds-if}
use kode_operator.Api.{Kode, KodeStatus, Phase, Template, ContainerTemplateSharedSpec}
use kode_operator.Api.Names.{get_secret_name, get_service_name, get_stateful_set_name}
use kode_operator.Objects.{StatefulSet, StatefulSetSpec}
use kode_operator.Env.{Env, St, M}
use kode_operator.Kode.Config.{KodeResourceConfig, init_kode_resources_config}
use kode_operator.Kode.Checks.{
  secret_ready, has_port, check_secret_ready, check_service_ready, check_stateful_set_ready,
  check_pvc_ready, check_pods_ready, compose_resource_checks, run_checks, check_resources_ready,
}
use kode_operator.Kode.Ensure.{construct_secret_data, construct_service}
use kode_operator.Kode.Validate.{validate_pods}
use kode_operator.Kode.Constructed.{construct_stateful_set_spec-validated}
use kode_operator.Kode.Progress.Steps.{Succeeds-ask}
use kode_operator.Kode.Progress.{
  served, started, Stage, Serves, Accepted, with_status, new_secret, new_stateful_set,
}

secret_ready-new : (x k : Kode) (t : Template) → secret_ready x (new_secret k t) ≡ true
unfolding secret_ready construct_secret_data lookup str_eq
secret_ready-new x k t = ground arith

pub has_port-new :
    (k : Kode) (t : Template)
    → has_port t.port (construct_service (init_kode_resources_config k t)).ports ≡ true
unfolding has_port construct_service init_kode_resources_config any
has_port-new k t = ground arith

-- The first test of validateStatefulSet.
one_replica-gate :
    (r : Option ℕ) (e : Error) (m : M (Option Error)) (s : St)
    → (if not (elim r [ none ↦ false | some n ↦ n == 1 ]) then pure (some e) else m) s
      ≡ (done none, s)
    → r ≡ some 1
unfolding pure
one_replica-gate none e m s h = absurd (cc h)
one_replica-gate (some n) e m s h = ground arith

validate_pods-replicas :
    (c : KodeResourceConfig) (x : StatefulSet) (s : St)
    → validate_pods c x s ≡ (done none, s)
    → x.spec.replicas ≡ some 1
unfolding validate_pods
validate_pods-replicas c x s h = one_replica-gate x.spec.replicas _ _ s h

module _ {env : Env} {k : Kode} {t : Template} {spec : ContainerTemplateSharedSpec}
    {built : StatefulSetSpec} (accepted : Accepted env k t spec built)
    (serves : Serves env k t built) where
  -- The StatefulSet that the API server serves.
  abbrev pub live_stateful_set : StatefulSet
  live_stateful_set = record (new_stateful_set k t built) { ready_replicas = 1 }

  pub validate_pods-new :
      (s : St) → validate_pods (init_kode_resources_config k t) live_stateful_set s ≡ (done none, s)
  unfolding init_kode_resources_config
  validate_pods-new s =
      construct_stateful_set_spec-validated env k (init_kode_resources_config k t) spec built
        (record (new_stateful_set k t built) { ready_replicas = 1 }) s accepted.template
        (accepted.builds k.status)

  module _ {p : Phase} where
    Ready-secret :
        (st : KodeStatus)
        → Succeeds
            (Stage k t built p true true true)
            (Stage k t built p true true true)
            (check_secret_ready env (with_status k st) (init_kode_resources_config k t))
            (ok true)
    unfolding check_secret_ready get_secret_name if_failed
    Ready-secret st =
        Succeeds-bind _ _ (ok (new_secret k t)) _
          (Succeeds-ask _ _ (λ s h. serves.secret s.calls ∙ ap (served serves.message) h.secret))
          (rw (secret_ready-new (with_status k st) k t) (Succeeds-pure _))

    Ready-service :
        (st : KodeStatus)
        → Succeeds
            (Stage k t built p true true true)
            (Stage k t built p true true true)
            (check_service_ready env (with_status k st) (init_kode_resources_config k t))
            (ok true)
    unfolding check_service_ready get_service_name if_failed init_kode_resources_config
    Ready-service st =
        Succeeds-bind _ _ (ok (construct_service (init_kode_resources_config k t))) _
          (Succeeds-ask _ _ (λ s h. serves.service s.calls ∙ ap (served serves.message) h.service))
          (rw (has_port-new k t) (Succeeds-pure _))

    Ready-stateful_set :
        (st : KodeStatus)
        → Succeeds
            (Stage k t built p true true true)
            (Stage k t built p true true true)
            (check_stateful_set_ready env (with_status k st) (init_kode_resources_config k t))
            (ok true)
    unfolding check_stateful_set_ready get_stateful_set_name if_failed
    Ready-stateful_set st =
        Succeeds-bind _ _ (ok live_stateful_set) _
          (Succeeds-ask _ _ (λ s h.
            serves.stateful_set s.calls
            ∙ ap (λ o. served serves.message (started o)) h.stateful_set))
          (record {
            at = λ s h.
                (Succeeds-bind {P = Stage k t built p true true true} _ _ 1 _
                    (Succeeds-deref _ _
                      (validate_pods-replicas _ live_stateful_set s (validate_pods-new s)))
                    (Succeeds-pure _)).at
                  s h;
          })

    Ready-pvc :
        (st : KodeStatus)
        → Succeeds
            (Stage k t built p true true true)
            (Stage k t built p true true true)
            (check_pvc_ready env (with_status k st) (init_kode_resources_config k t))
            (ok true)
    unfolding check_pvc_ready
    Ready-pvc st = Succeeds-if _ _ _ _ (ap is_none accepted.no_storage) (Succeeds-pure _)

    Ready-pods :
        (st : KodeStatus)
        → Succeeds
            (Stage k t built p true true true)
            (Stage k t built p true true true)
            (check_pods_ready env (with_status k st) (init_kode_resources_config k t))
            (ok true)
    unfolding check_pods_ready if_failed init_kode_resources_config
    Ready-pods st =
        Succeeds-bind _ _ (ok (serves.pod ∷ serves.pods)) _
          (Succeeds-ask _ _ (λ s h. serves.running s.calls)) (rw serves.ready (Succeeds-pure _))

    pub Ready-check :
        (st : KodeStatus)
        → Succeeds
            (Stage k t built p true true true)
            (Stage k t built p true true true)
            (check_resources_ready env (with_status k st) (init_kode_resources_config k t))
            (ok true)
    unfolding check_resources_ready run_checks compose_resource_checks if_failed
    Ready-check st = Succeeds-bind _ _ (ok true) _ (Ready-secret st) (
        Succeeds-bind _ _ (ok true) _ (Ready-service st) (
          Succeeds-bind _ _ (ok true) _ (Ready-stateful_set st) (
            Succeeds-bind _ _ (ok true) _ (Ready-pvc st)
              (Succeeds-bind _ _ (ok true) _ (Ready-pods st) (Succeeds-pure _)))))
