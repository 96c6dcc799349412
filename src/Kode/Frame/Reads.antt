-- ===== src/Kode/Frame/Reads.antt =====
-- The parts that fetch the template, check, and detect changes keep every stable predicate.
use kode_operator.Prelude.{String}
use kode_operator.Go.{Error}
use kode_operator.Go.Keeps.{Keeps, Keeps-bind, keeps_rules}
use kode_operator.Condition.{ConditionType, ConditionStatus}
use kode_operator.Api.{CrossNamespaceObjectReference, Runtime}
use kode_operator.Env.{Env, St, EventType, record_event}
use kode_operator.Env.Frame.{env_rules, Keeps-change, Keeps-record_event, Keeps-ask}
use kode_operator.KodeObject.{set_condition, set_runtime, update_status}
use kode_operator.KodeObject.Laws.{Keeps-update_status}
use kode_operator.Template.{fetch}
use kode_operator.Template.Frame.{Keeps-fetch}
use kode_operator.Kode.Errors.{fetch_templates_with_retry, handle_reconcile_error}
use kode_operator.Kode.Frame.{Stable, patches, events, to_runtime, to_error, to_condition}

module _ (env : Env) {P : St → Type 0} (stable : Stable P) where
  pub Stable-event : (t : EventType) (reason : String) → Keeps P (record_event t reason)
  Stable-event t reason =
      Keeps-record_event t reason (λ s h. stable.calling _ s (events t reason) h)

  pub Stable-update_status : Keeps P (update_status env)
  Stable-update_status = Keeps-update_status env (λ k s h. stable.calling _ s (patches k) h)

  pub Stable-set_condition :
      (t : ConditionType) (status : ConditionStatus) (reason message : String)
      → Keeps P (set_condition env t status reason message)
  unfolding set_condition
  Stable-set_condition t status reason message =
      Keeps-bind _ _ (Keeps-ask _)
        (λ now. Keeps-change _ (stable.editing (to_condition now t status reason message)))

  pub Stable-set_runtime : (r : Runtime) → Keeps P (set_runtime env r)
  unfolding set_runtime
  Stable-set_runtime r =
      search (keeps_rules, env_rules, Stable-update_status, stable.editing (to_runtime r)) depth 20

  pub Stable-fetch : (ref : CrossNamespaceObjectReference) → Keeps P (fetch env ref)
  Stable-fetch ref = Keeps-fetch env stable.caching ref

  pub Stable-fetch_templates_with_retry : Keeps P (fetch_templates_with_retry env)
  unfolding fetch_templates_with_retry
  Stable-fetch_templates_with_retry =
      search (keeps_rules, env_rules, Stable-fetch, Stable-set_runtime) depth 20

  pub Stable-handle_reconcile_error :
      (e : Error) (message : String) → Keeps P (handle_reconcile_error env e message)
  unfolding handle_reconcile_error
  Stable-handle_reconcile_error e message =
      search
        (
          keeps_rules,
          env_rules,
          Stable-set_condition,
          Stable-update_status,
          stable.editing (to_error _ _),
        )
        depth 20
