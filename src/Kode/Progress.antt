-- ===== src/Kode/Progress.antt =====
-- The way of a new Kode to phase Active: what the API server answers, and the stages on the way.
pub mod Steps
pub mod Ready
pub mod Written
pub mod Runs
pub mod Settled
use kode_operator.Prelude.{
  String, Bool, true, false, lookup, get_or, Option, none, some, List, ◌∷◌, ◌≡◌, if◌then◌else◌,
}
use kode_operator.Go.{Reason, Error, Result, ok, err, done}
use kode_operator.Api.{
  Kode, KodeStatus, Phase, Template, ContainerTemplateSharedSpec, CrossNamespaceObjectReference,
}
use kode_operator.Api.Names.{
  existing_secret, get_secret_name, get_service_name, get_stateful_set_name,
}
use kode_operator.Objects.{Labels, Secret, Service, StatefulSet, StatefulSetSpec, Pod}
use kode_operator.Env.{Env, St, Trace, Call}
use kode_operator.Env.Store.{blank_stateful_set, stored_secret, stored_service, stored_stateful_set}
use kode_operator.KodeObject.Saved.{last_saved}
use kode_operator.KodeObject.{update_status, contains_finalizer}
use kode_operator.Template.{validate_ref, get_cache_key}
use kode_operator.Validation.{validate_kode}
use kode_operator.Kode.Config.{
  KodeResourceConfig, init_kode_resources_config, create_labels, credentials,
}
use kode_operator.Kode.Checks.{pods_ready}
use kode_operator.Kode.Ensure.{construct_secret_data, construct_service}
use kode_operator.Kode.StatefulSet.{construct_stateful_set_spec, set_labels}

-- The answer to a Get of an object that is there, or not.
abbrev pub served : {A : Type 0} → String → Option A → Result A
served message (some a) = ok a
served message none = err (record { reason = Reason.not_found; message = message })

abbrev pub with_status : Kode → KodeStatus → Kode
with_status k st = record k { status = st }

-- A Kode that is accepted: it is not deleted, has the finalizer, its own secret and no storage, its
-- template is a ContainerTemplate with this spec, and the StatefulSet's spec can be made.
pub record Accepted (env : Env) (k : Kode) (t : Template) (spec : ContainerTemplateSharedSpec)
    (built : StatefulSetSpec) : Type 0 where
  pub live : k.deleted ≡ false
  pub held : contains_finalizer env k ≡ true
  pub own_secret : existing_secret k ≡ none
  pub no_storage : k.spec.storage ≡ none
  pub ref_valid : validate_ref k.spec.template_ref ≡ none
  pub valid : (validate_kode k).valid ≡ true
  pub template : t.container_template_spec ≡ some spec
  pub builds :
      (st : KodeStatus)
      → construct_stateful_set_spec env (with_status k st) (init_kode_resources_config k t) spec
        ≡ ok built

-- The secret that ensureSecret makes, with the labels that it is created with.
abbrev pub new_secret : Kode → Template → Secret
new_secret k t = record {
  labels = create_labels k t;
  data_ = construct_secret_data (credentials k);
}

-- The StatefulSet that ensureStatefulSet makes of this spec where there is none
abbrev pub new_stateful_set : Kode → Template → StatefulSetSpec → StatefulSet
new_stateful_set k t built =
    record (blank_stateful_set (set_labels (create_labels k t) (create_labels k t))) {
      spec = built;
    }

-- What the controller of the StatefulSets reports of the one that is stored: its replica is ready.
abbrev pub started : Option StatefulSet → Option StatefulSet
started none = none
started (some x) = some (record x { ready_replicas = 1 })

-- An API server that holds just what the calls have written, finds the pods of the StatefulSet ready, and takes
-- every call. The Kode has the status that was saved last, and its own one before.
pub record Serves (env : Env) (k : Kode) (t : Template) (built : StatefulSetSpec) : Type 0 where
  pub message : String
  pub pod : Pod
  pub pods : List Pod
  pub kode :
      (x : Trace)
      → env.get_kode x k.name k.namespace ≡ ok (with_status k (get_or (last_saved x) k.status))
  pub secret :
      (x : Trace)
      → env.get_secret x (get_secret_name k) k.namespace
        ≡ served message (stored_secret (get_secret_name k) x)
  pub service :
      (x : Trace)
      → env.get_service x (get_service_name k) k.namespace
        ≡ served message (stored_service (get_service_name k) x)
  pub stateful_set :
      (x : Trace)
      → env.get_stateful_set x (get_stateful_set_name k) k.namespace
        ≡ served message (started (stored_stateful_set (get_stateful_set_name k) x))
  pub running : (x : Trace) → env.list_pods x k.namespace (create_labels k t) ≡ ok (pod ∷ pods)
  pub ready : pods_ready (pod ∷ pods) ≡ true
  pub takes : (x : Trace) (c : Call) → env.put_object x c ≡ none
  pub saves : (s : St) → (update_status env s).0 ≡ done none

-- The Kode in memory is `k` but for its status, it is in phase `p`, its template is in the cache, and each of the
-- three objects is stored as the ensure functions make it, or is not stored.
pub record Stage (k : Kode) (t : Template) (built : StatefulSetSpec) (p : Phase) (a b c : Bool)
    (s : St) : Type 0 where
  pub same : s.kode ≡ with_status k s.kode.status
  pub phase : s.kode.status.phase ≡ p
  pub seen : s.kode.status.observed_generation ≡ k.generation
  pub no_retry : s.kode.status.retry_count ≡ 0
  pub cached : lookup (get_cache_key k.spec.template_ref) s.cache ≡ some t
  pub secret :
      stored_secret (get_secret_name k) s.calls ≡ (if a then some (new_secret k t) else none)
  pub service :
      stored_service (get_service_name k) s.calls
      ≡ (if b then some (construct_service (init_kode_resources_config k t)) else none)
  pub stateful_set :
      stored_stateful_set (get_stateful_set_name k) s.calls
      ≡ (if c then some (new_stateful_set k t built) else none)

-- The same of the Kode as it is saved, whatever the Kode in memory is.
abbrev pub Saved : Kode → Template → StatefulSetSpec → Phase → Bool → Bool → Bool → St → Type 0
Saved k t built p a b c s =
    Stage k t built p a b c
      (record s { kode = with_status k (get_or (last_saved s.calls) k.status) })
