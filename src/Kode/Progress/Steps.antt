-- ===== src/Kode/Progress/Steps.antt =====
-- The steps that every handler takes, in a stage of a new Kode.
use kode_operator.Prelude.{
  String, Bool, true, false, ◌∷◌, none, some, ◌≡◌, refl, sym, ap, subst, ◌∙◌, if◌then◌else◌,
}
use kode_operator.Go.{
  ok, err, done, ◌>>=◌, pure, if_err, if_failed, if_some, gets, wrap, deref, modify,
}
use kode_operator.Go.Succeeds.{
  Succeeds, Succeeds-pure, Succeeds-Keeps, Succeeds-deref, Succeeds-bind, Succeeds-then,
}
use kode_operator.Condition
use kode_operator.Condition.{ConditionType, ConditionStatus}
use kode_operator.Api.{
  Kode, KodeStatus, Phase, Template, Runtime, runtime_container, ContainerTemplateSharedSpec,
}
use kode_operator.Objects.{StatefulSetSpec}
use kode_operator.Env.{
  Env, St, M, Trace, EventType, get, ask, change, record_event, note, Call, patch_status, event,
}
use kode_operator.KodeObject.{set_status, set_phase, set_condition, update_status, set_runtime}
use kode_operator.KodeObject.Laws.{Keeps-update_status}
use kode_operator.KodeObject.Saved.{last_saved, update_status-Saves}
use kode_operator.Env.Store.{stored_secret, stored_service, stored_stateful_set}
use kode_operator.Api.Names.{get_secret_name, get_service_name, get_stateful_set_name}
use kode_operator.Kode.Config.{init_kode_resources_config}
use kode_operator.Kode.Ensure.{construct_service}
use kode_operator.Kode.Deletion.{found}
use kode_operator.Template.{fetch}
use kode_operator.Kode.Errors.{fetch_templates_with_retry}
use kode_operator.Kode.Progress.{Stage, Serves, Accepted, with_status, new_secret, new_stateful_set}

pub Succeeds-ask :
    {A : Type 0} {P : St → Type 0} (f : Trace → A) (x : A)
    → ((s : St) → P s → f s.calls ≡ x)
    → Succeeds P P (ask f) x
unfolding ask
Succeeds-ask f x e = record { at = λ s h. (ap done (e s h), h) }

module _ (k : Kode) (t : Template) {built : StatefulSetSpec} {a b c : Bool} where
  -- A call is made.
  pub Stage-note :
      {p : Phase} {x y z : Bool} (w : Call) (s : St)
      → Stage k t built p a b c s
      → stored_secret (get_secret_name k) (w ∷ s.calls)
        ≡ (if x then some (new_secret k t) else none)
      → stored_service (get_service_name k) (w ∷ s.calls)
        ≡ (if y then some (construct_service (init_kode_resources_config k t)) else none)
      → stored_stateful_set (get_stateful_set_name k) (w ∷ s.calls)
        ≡ (if z then some (new_stateful_set k t built) else none)
      → Stage k t built p x y z (note w s)
  Stage-note w s h secret service stateful_set = record {
    same = h.same;
    phase = h.phase;
    seen = h.seen;
    no_retry = h.no_retry;
    cached = h.cached;
    secret = secret;
    service = service;
    stateful_set = stateful_set;
  }

  -- A change of the status that leaves the counts alone.
  pub Stage-status :
      (p q : Phase) (g : KodeStatus → KodeStatus) (s : St)
      → Stage k t built p a b c s
      → (g s.kode.status).phase ≡ q
      → (g s.kode.status).observed_generation ≡ s.kode.status.observed_generation
      → (g s.kode.status).retry_count ≡ s.kode.status.retry_count
      → Stage k t built q a b c (record s { kode = set_status g s.kode })
  Stage-status p q g s h phase seen no_retry = record {
    same = ap (set_status g) h.same;
    phase = phase;
    seen = seen ∙ h.seen;
    no_retry = no_retry ∙ h.no_retry;
    cached = h.cached;
    secret = h.secret;
    service = h.service;
    stateful_set = h.stateful_set;
  }

  module _ {p : Phase} where
    Keeps-patched :
        (x : Kode) (s : St)
        → Stage k t built p a b c s
        → Stage k t built p a b c (note (patch_status x) s)
    unfolding stored_secret stored_service stored_stateful_set
    Keeps-patched x s h = Stage-note (patch_status x) s h h.secret h.service h.stateful_set

    pub Succeeds-event :
        (type : EventType) (reason : String)
        → Succeeds (Stage k t built p a b c) (Stage k t built p a b c) (record_event type reason) tt
    unfolding record_event modify stored_secret stored_service stored_stateful_set
    Succeeds-event type reason = record {
      at = λ s h. (refl, Stage-note (event type reason) s h h.secret h.service h.stateful_set);
    }

    pub Succeeds-status :
        (g : KodeStatus → KodeStatus)
        → ((x : KodeStatus) → (g x).phase ≡ x.phase)
        → ((x : KodeStatus) → (g x).observed_generation ≡ x.observed_generation)
        → ((x : KodeStatus) → (g x).retry_count ≡ x.retry_count)
        → Succeeds (Stage k t built p a b c) (Stage k t built p a b c) (change (set_status g)) tt
    unfolding change
    Succeeds-status g phase seen no_retry = record {
      at = λ s h. (
        refl,
        Stage-status p p g s h (phase s.kode.status ∙ h.phase) (seen s.kode.status)
            (no_retry s.kode.status),
      );
    }

    pub Succeeds-set_phase :
        (q : Phase) → Succeeds (Stage k t built p a b c) (Stage k t built q a b c) (set_phase q) tt
    unfolding change
    Succeeds-set_phase q = record {
      at = λ s h. (refl, Stage-status p q (λ x. record x { phase = q }) s h refl refl refl);
    }

    -- The rest of a block that reads the Kode may take it for `k` with some status.
    pub Succeeds-get :
        {A : Type 0} {Q : St → Type 0} (f : Kode → M A) (x : A)
        → ((st : KodeStatus)
            → st.phase ≡ p
            → st.observed_generation ≡ k.generation
            → st.retry_count ≡ 0
            → Succeeds (Stage k t built p a b c) Q (f (with_status k st)) x)
        → Succeeds (Stage k t built p a b c) Q (get >>= f) x
    unfolding get ◌>>=◌
    Succeeds-get {Q = Q} f x g = record {
      at = λ s h.
          (subst (λ y. Succeeds (Stage k t built p a b c) Q (f y) x) (sym h.same)
              (g s.kode.status h.phase h.seen h.no_retry)).at
            s h;
    }

    module _ (env : Env) where
      pub Succeeds-condition :
          (type : ConditionType) (status : ConditionStatus) (reason message : String)
          → Succeeds
              (Stage k t built p a b c)
              (Stage k t built p a b c)
              (set_condition env type status reason message)
              tt
      unfolding set_condition ◌>>=◌ ask change
      Succeeds-condition type status reason message = record {
        at = λ s h. (
          refl,
          Stage-status p p
              (λ x. record x {
                conditions =
                    Condition.set_condition (env.now s.calls) type status reason message
                      x.conditions;
              })
              s h h.phase refl refl,
        );
      }

      module _ (serves : Serves env k t built) where
        pub Succeeds-save :
            Succeeds (Stage k t built p a b c) (Stage k t built p a b c) (update_status env) none
        Succeeds-save = Succeeds-Keeps _ _ serves.saves (Keeps-update_status env Keeps-patched)

        -- After it, the status in memory is the one that was saved last.
        pub Succeeds-saved :
            Succeeds
              (Stage k t built p a b c)
              (λ s. Stage k t built p a b c s × (last_saved s.calls ≡ some s.kode.status))
              (update_status env)
              none
        Succeeds-saved = record {
          at = λ s h.
              let (e, i) = Succeeds-save.at s h in
              let saved =
                update_status-Saves env s.kode
                  (λ x.
                    ap (λ y. found (env.get_kode x y.name y.namespace)) h.same
                    ∙ ap found (serves.kode x))
                  s refl in
              (e, (i, saved.last ∙ ap (λ y. some y.status) (sym saved.same)));
        }

        pub Succeeds-runtime :
            (r : Runtime)
            → Succeeds (Stage k t built p a b c) (Stage k t built p a b c) (set_runtime env r) none
        unfolding set_runtime if_err
        Succeeds-runtime r =
            Succeeds-then _ _ _
              (Succeeds-status (λ x. record x { runtime = some r }) (λ x. refl) (λ x. refl)
                (λ x. refl))
              (Succeeds-bind _ _ none none Succeeds-save (Succeeds-pure none))

        module _ {spec : ContainerTemplateSharedSpec} (accepted : Accepted env k t spec built) where
          Succeeds-fetch :
              Succeeds
                (Stage k t built p a b c)
                (Stage k t built p a b c)
                (fetch env k.spec.template_ref)
                (ok (some t))
          unfolding fetch if_err gets if_some pure ◌>>=◌
          Succeeds-fetch = record { at = λ s h. rw (accepted.ref_valid, h.cached) (refl, h) }

          -- What fetchTemplatesWithRetry does with the template.
          Succeeds-named :
              (named : Bool)
              → Succeeds
                  (Stage k t built p a b c)
                  (Stage k t built p a b c)
                  (if named
                    then (deref t.container_template_spec >>= λ spec.
                        set_runtime env
                          (record { runtime = runtime_container; type = spec.runtime })
                        >>= λ e.
                            if_err e
                              (λ e. pure (err (wrap "failed to update runtime" e)))
                              (pure (ok t)))
                    else pure (ok t))
                  (ok t)
          unfolding if_err
          Succeeds-named true =
              Succeeds-bind _ _ spec _ (Succeeds-deref _ _ accepted.template)
                (Succeeds-bind _ _ none _ (Succeeds-runtime _) (Succeeds-pure _))
          Succeeds-named false = Succeeds-pure _

          pub Succeeds-templates :
              Succeeds
                (Stage k t built p a b c)
                (Stage k t built p a b c)
                (fetch_templates_with_retry env)
                (ok t)
          unfolding fetch_templates_with_retry if_failed
          Succeeds-templates = Succeeds-get _ _ λ st phase seen no_retry.
              Succeeds-bind _ _ (ok (some t)) _ Succeeds-fetch
                (Succeeds-bind _ _ t _ (Succeeds-deref _ _ refl) (Succeeds-named _))
