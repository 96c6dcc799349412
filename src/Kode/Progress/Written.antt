-- ===== src/Kode/Progress/Written.antt =====
-- The objects of a new Kode are written and found as they should be.
use kode_operator.Prelude.{
  String, str_eq, str_eq_refl, lookup, Bool, true, false, not, Option, none, some, ◌≡◌, ◌&&◌, refl,
  ap, ◌∙◌, arith,
}
use kode_operator.Go.{Error, ok, done, if_failed, if_err}
use kode_operator.Go.Succeeds.{
  Succeeds, Succeeds-pure, Succeeds-still, Succeeds-deref, Succeeds-bind, Succeeds-if,
  Succeeds-if_none,
}
use kode_operator.Api.{
  Kode, KodeStatus, Phase, Template, ContainerTemplateSharedSpec, KodeStorageSpec, is_empty,
}
use kode_operator.Api.Names.{get_secret_name, get_service_name, get_stateful_set_name}
use kode_operator.Objects.{StatefulSetSpec}
use kode_operator.Env.{Env, St, M, Call, call, note}
use kode_operator.Kode.Config.{create_labels, credentials, init_kode_resources_config}
use kode_operator.Kode.Changes.{
  Changes, detect_secret_changes, detect_service_changes, detect_stateful_set_changes,
  detect_changes, apply_if, apply_configuration,
}
use kode_operator.Kode.Ensure.{
  construct_secret_data, construct_service, ensure_secret, ensure_service,
}
use kode_operator.Kode.StatefulSet.{ensure_stateful_set}
use kode_operator.Kode.Validate.{
  secret_error, service_error, validate_secret, validate_service, validate_stateful_set,
  validate_configuration,
}
use kode_operator.Kode.Idempotence.{has_required_labels-labels}
use kode_operator.Kode.Progress.{served, started, Stage, Serves, Accepted, with_status, new_secret}
use kode_operator.Env.Store.{stored_secret, stored_service, stored_stateful_set}
use kode_operator.Kode.Progress.Steps.{Succeeds-ask, Succeeds-get, Stage-note}
use kode_operator.Kode.Progress.Ready.{has_port-new, live_stateful_set, validate_pods-new}

-- What detectChanges says of a Kode whose three objects are missing.
abbrev pub all_missing : Changes
all_missing = record { secret = true; service = true; stateful_set = true; pvc = false }

-- A Kode with no storage gets no claim.
Succeeds-no_claim :
    {P : St → Type 0} (env : Env) (o : Option KodeStorageSpec) (what : String)
    (m n : M (Option Error))
    → o ≡ none
    → Succeeds P P n none
    → Succeeds P P (apply_if env (not (is_empty o) && false) what m n) none
unfolding is_empty
Succeeds-no_claim env none what m n e k = k
Succeeds-no_claim env (some x) what m n e k = absurd (cc e)

secret_error-new :
    (x k : Kode) (t : Template)
    → secret_error x (init_kode_resources_config k t) (new_secret k t) ≡ none
unfolding secret_error init_kode_resources_config construct_secret_data lookup str_eq
secret_error-new x k t = rw (has_required_labels-labels k t) (ground arith)

service_error-new :
    (k : Kode) (t : Template)
    → service_error
        (init_kode_resources_config k t)
        (construct_service (init_kode_resources_config k t))
      ≡ none
unfolding service_error construct_service init_kode_resources_config
service_error-new k t = rw (has_port-new k t, has_required_labels-labels k t) refl

module _ {env : Env} {k : Kode} {t : Template} {spec : ContainerTemplateSharedSpec}
    {built : StatefulSetSpec} (accepted : Accepted env k t spec built)
    (serves : Serves env k t built) {p : Phase} where
  Written-call :
      {a b c a' b' c' : Bool} (w : Call)
      → ((s : St) → Stage k t built p a b c s → Stage k t built p a' b' c' (note w s))
      → Succeeds
          (Stage k t built p a b c)
          (Stage k t built p a' b' c')
          (call w (λ x. env.put_object x w))
          none
  unfolding call
  Written-call w keeps = record { at = λ s h. (ap done (serves.takes s.calls w), keeps s h) }

  Missing-secret :
      Succeeds
        (Stage k t built p false false false)
        (Stage k t built p false false false)
        (detect_secret_changes env (init_kode_resources_config k t))
        (ok true)
  unfolding detect_secret_changes get_secret_name if_failed
  Missing-secret = Succeeds-get k t _ _ λ st phase seen no_retry.
      Succeeds-bind _ _ (served serves.message none) _
        (Succeeds-ask _ _ (λ s h. serves.secret s.calls ∙ ap (served serves.message) h.secret))
        (Succeeds-pure _)

  Missing-service :
      Succeeds
        (Stage k t built p false false false)
        (Stage k t built p false false false)
        (detect_service_changes env (init_kode_resources_config k t))
        (ok true)
  unfolding detect_service_changes get_service_name if_failed
  Missing-service = Succeeds-get k t _ _ λ st phase seen no_retry.
      Succeeds-bind _ _ (served serves.message none) _
        (Succeeds-ask _ _ (λ s h. serves.service s.calls ∙ ap (served serves.message) h.service))
        (Succeeds-pure _)

  Missing-stateful_set :
      Succeeds
        (Stage k t built p false false false)
        (Stage k t built p false false false)
        (detect_stateful_set_changes env (init_kode_resources_config k t))
        (ok true)
  unfolding detect_stateful_set_changes get_stateful_set_name if_failed
  Missing-stateful_set = Succeeds-get k t _ _ λ st phase seen no_retry.
      Succeeds-bind _ _ (served serves.message none) _
        (Succeeds-ask _ _ (λ s h.
          serves.stateful_set s.calls ∙ ap (λ o. served serves.message (started o)) h.stateful_set))
        (Succeeds-pure _)

  pub Missing-changes :
      Succeeds
        (Stage k t built p false false false)
        (Stage k t built p false false false)
        (detect_changes env (init_kode_resources_config k t))
        (ok all_missing)
  unfolding detect_changes if_failed is_empty
  Missing-changes = Succeeds-bind _ _ (ok true) _ Missing-secret (
      Succeeds-bind _ _ (ok true) _ Missing-service (
        Succeeds-bind _ _ (ok true) _ Missing-stateful_set (
          Succeeds-get k t _ _ λ st phase seen no_retry.
            Succeeds-bind _ _ (ok false) _
              (Succeeds-if _ _ _ _ (ap is_empty accepted.no_storage) (Succeeds-pure _))
              (Succeeds-pure _))))

  Writes-secret :
      Succeeds
        (Stage k t built p false false false)
        (Stage k t built p true false false)
        (ensure_secret env (init_kode_resources_config k t))
        none
  unfolding ensure_secret if_err stored_secret stored_service stored_stateful_set create_labels
      construct_secret_data get_secret_name credentials init_kode_resources_config str_eq
  Writes-secret = Succeeds-get k t _ _ λ st phase seen no_retry.
      Succeeds-if_none _ _ _ _ accepted.own_secret (
        Succeeds-bind _ _ none _
          (Written-call _ λ s h.
            Stage-note k t _ s h (rw (str_eq_refl (get_secret_name k), h.secret) refl) h.service
              h.stateful_set)
          (Succeeds-pure _))

  Writes-service :
      (st : KodeStatus)
      → Succeeds
          (Stage k t built p true false false)
          (Stage k t built p true true false)
          (ensure_service env (with_status k st) (init_kode_resources_config k t))
          none
  unfolding ensure_service if_err stored_secret stored_service stored_stateful_set get_service_name
  Writes-service st =
      Succeeds-bind _ _ none _
        (Written-call _ λ s h.
          Stage-note k t _ s h h.secret (rw (str_eq_refl (get_service_name k)) refl) h.stateful_set)
        (Succeeds-pure _)

  Writes-stateful_set :
      (st : KodeStatus)
      → Succeeds
          (Stage k t built p true true false)
          (Stage k t built p true true true)
          (ensure_stateful_set env (with_status k st) (init_kode_resources_config k t))
          none
  unfolding ensure_stateful_set if_failed stored_secret stored_service stored_stateful_set
      init_kode_resources_config get_stateful_set_name
  Writes-stateful_set st = Succeeds-bind _ _ spec _ (Succeeds-deref _ _ accepted.template) (
      rw (accepted.builds st) (
        Written-call _ λ s h.
          Stage-note k t _ s h h.secret h.service
            (rw (str_eq_refl (get_stateful_set_name k), h.stateful_set) refl)))

  pub Writes-all :
      Succeeds
        (Stage k t built p false false false)
        (Stage k t built p true true true)
        (apply_configuration env (init_kode_resources_config k t) all_missing)
        none
  unfolding apply_configuration if_err is_empty
  Writes-all = Succeeds-bind _ _ none _ Writes-secret (
      Succeeds-bind _ _ none _ (Succeeds-get k t _ _ λ st phase seen no_retry. Writes-service st) (
        Succeeds-bind _ _ none _
          (Succeeds-get k t _ _ λ st phase seen no_retry. Writes-stateful_set st)
          (Succeeds-get k t _ _ λ st phase seen no_retry.
            Succeeds-no_claim env k.spec.storage _ _ _ accepted.no_storage (Succeeds-pure _))))

  Valid-secret :
      (st : KodeStatus)
      → Succeeds
          (Stage k t built p true true true)
          (Stage k t built p true true true)
          (validate_secret env (with_status k st) (init_kode_resources_config k t))
          none
  unfolding validate_secret get_secret_name if_failed
  Valid-secret st =
      Succeeds-bind _ _ (ok (new_secret k t)) _
        (Succeeds-ask _ _ (λ s h. serves.secret s.calls ∙ ap (served serves.message) h.secret))
        (rw (secret_error-new (with_status k st) k t) (Succeeds-pure _))

  Valid-service :
      (st : KodeStatus)
      → Succeeds
          (Stage k t built p true true true)
          (Stage k t built p true true true)
          (validate_service env (with_status k st) (init_kode_resources_config k t))
          none
  unfolding validate_service get_service_name if_failed
  Valid-service st =
      Succeeds-bind _ _ (ok (construct_service (init_kode_resources_config k t))) _
        (Succeeds-ask _ _ (λ s h. serves.service s.calls ∙ ap (served serves.message) h.service))
        (rw (service_error-new k t) (Succeeds-pure _))

  Valid-stateful_set :
      (st : KodeStatus)
      → Succeeds
          (Stage k t built p true true true)
          (Stage k t built p true true true)
          (validate_stateful_set env (with_status k st) (init_kode_resources_config k t))
          none
  unfolding validate_stateful_set get_stateful_set_name if_failed
  Valid-stateful_set st =
      Succeeds-bind _ _ (ok (live_stateful_set accepted serves)) _
        (Succeeds-ask _ _ (λ s h.
          serves.stateful_set s.calls ∙ ap (λ o. served serves.message (started o)) h.stateful_set))
        (Succeeds-still _ _ (λ s h. validate_pods-new accepted serves s))

  pub Valid-all :
      Succeeds
        (Stage k t built p true true true)
        (Stage k t built p true true true)
        (validate_configuration env (init_kode_resources_config k t))
        none
  unfolding validate_configuration if_err init_kode_resources_config
  Valid-all = Succeeds-get k t _ _ λ st phase seen no_retry.
      Succeeds-bind _ _ none _ (Valid-secret st) (
        Succeeds-bind _ _ none _ (Valid-service st) (
          Succeeds-bind _ _ none _ (Valid-stateful_set st)
            (Succeeds-if_none _ _ _ _ accepted.no_storage (Succeeds-pure _))))
