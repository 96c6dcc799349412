-- ===== src/Scenarios/World.antt =====
-- A world for the scenarios: an API server that finds the Kode `demo` and its child resources, all
-- of them ready, and that accepts every write.
use kode_operator.Prelude.{
  ℕ, zero, suc, String, ◌<>◌, join, str_eq, any, Bool, true, false, Option, none, some, List, [],
  ◌∷◌, ◌≡◌, refl, inl, inr, Bool-cases, str_eq_refl, if◌then◌else◌,
}
use kode_operator.Go.{Error, Reason, Result, ok, err, Outcome, done, panic, new_error}
use kode_operator.Condition.{is_true}
use kode_operator.Api.{
  KodeSpec, KodeStorageSpec, Kode, Template, ContainerTemplateSharedSpec, EntryPointSpec,
  EntryPoint, active, Phase,
}
use kode_operator.Objects.{Secret, StatefulSet, PersistentVolumeClaim, Pod, pod_running}
use kode_operator.Envoy.Types.{text}
use kode_operator.Env.{Env, St, M, Attempts, Backoff, PutRun, operation_created}
use kode_operator.Kode.Ensure.{construct_secret_data, construct_service}
use kode_operator.Kode.Config.{credentials, KodeResourceConfig, init_kode_resources_config}

abbrev Answer : Type 0
Answer = Outcome (Option Error) × St

settle : (St → Answer) → Outcome (Result Bool) × St → Answer
settle rest (done (ok true), t) = (done none, t)
settle rest (done (ok false), t) = rest t
settle rest (done (err e), t) = (done (some e), t)
settle rest (panic, t) = (panic, t)

unfoldable pub backoff : ℕ → M (Result Bool) → M (Option Error)
unfolding settle
backoff zero fn s = (done (some (new_error "timed out")), s)
backoff (suc n) fn s = settle (backoff n fn) (fn s)

settled :
    (n : ℕ) (fn : M (Result Bool)) (s : St)
    → ((t : St) → Backoff fn n t (backoff n fn t))
    → (r : Outcome (Result Bool) × St) → fn s ≡ r
    → Backoff fn (suc n) s (settle (backoff n fn) r)
unfolding settle
settled n fn s rest (done (ok true), t) e = Backoff.stop n s t e
settled n fn s rest (done (ok false), t) e = Backoff.wait n s t (backoff n fn t) e (rest t)
settled n fn s rest (done (err x), t) e = Backoff.give_up n s t x e
settled n fn s rest (panic, t) e = Backoff.crash n s t e

pub backoff_runs : (n : ℕ) (fn : M (Result Bool)) (s : St) → Backoff fn n s (backoff n fn s)
unfolding backoff
backoff_runs zero fn s = Backoff.timeout s (new_error "timed out")
backoff_runs (suc n) fn s = settled n fn s (λ t. backoff_runs n fn t) (fn s) refl

unfoldable pub put_after : Outcome (Result PersistentVolumeClaim) × St → Answer
put_after (done (ok q), t) = (done none, t)
put_after (done (err e), t) = (done (some e), t)
put_after (panic, t) = (panic, t)

abbrev pub claim : PersistentVolumeClaim
claim = record {
  labels = [];
  annotations = [];
  spec = record {
    access_modes = "ReadWriteOnce" ∷ [];
    resources = record { requests = some 10 };
    storage_class_name = none;
    volume_name = "";
  };
  bound = true;
}

pub put_ran :
    (f : PersistentVolumeClaim → M (Result PersistentVolumeClaim)) (s : St)
    (r : Outcome (Result PersistentVolumeClaim) × St)
    → f claim s ≡ r
    → PutRun f s (put_after r)
unfolding put_after
put_ran f s (done (ok q), t) e = PutRun.write claim q s t none e
put_ran f s (done (err x), t) e = PutRun.fail claim s t x e
put_ran f s (panic, t) e = PutRun.crash claim s t e

abbrev pub missing : Error
missing = record { reason = Reason.not_found; message = "not found" }

unfoldable pub remove_all : String → List String → List String
remove_all f [] = []
remove_all f (g ∷ gs) = let rest = remove_all f gs in if str_eq g f then rest else g ∷ rest

pub contains-remove_all :
    (fs : List String) (f : String) → any (λ g. str_eq g f) (remove_all f fs) ≡ false
unfolding any remove_all
contains-remove_all [] f = refl
contains-remove_all (g ∷ gs) f = elim (Bool-cases (str_eq g f)) [
  | inl h ↦ rw h (contains-remove_all gs f)
  | inr h ↦ rw (h, h) (contains-remove_all gs f)
]

pub contains-add : (fs : List String) (f : String) → any (λ g. str_eq g f) (f ∷ fs) ≡ true
unfolding any
contains-add fs f = rw (str_eq_refl f) refl

abbrev pub demo_storage : KodeStorageSpec
demo_storage = record {
  access_modes = "ReadWriteOnce" ∷ [];
  storage_class_name = none;
  resources = some (record { requests = some 10 });
  keep_volume = some true;
  existing_volume_claim = none;
}

abbrev pub demo_spec : KodeSpec
demo_spec = record {
  template_ref = record { kind = "ContainerTemplate"; name = "code"; namespace = none };
  credentials = none;
  home = none;
  workspace = none;
  storage = some demo_storage;
  init_plugins =
      record {
        name = "a";
        image = "busybox";
        command = [];
        args = [];
        env = [];
        volume_mounts = [];
      }
      ∷ record { name = "b"; image = ""; command = []; args = []; env = []; volume_mounts = [] }
      ∷ [];
}

abbrev pub demo : Phase → Kode
demo phase = record {
  name = "demo";
  namespace = "default";
  generation = 1;
  deleted = false;
  finalizers = "kode.jacero.io/kode-finalizer" ∷ [];
  spec = demo_spec;
  status = record {
    observed_generation = 1;
    conditions =
        record {
          type = "Ready";
          status = is_true;
          reason = "ResourcesReady";
          message = "All Kode resources are ready";
          last_transition_time = 1;
        }
        ∷ [];
    last_error = none;
    last_error_time = none;
    phase = phase;
    kode_url = "";
    kode_port = 3000;
    runtime = none;
    retry_count = 2;
    deletion_cycle = 0;
  };
}

abbrev pub code_spec : ContainerTemplateSharedSpec
code_spec = record {
  entry_point_ref = none;
  port = 3000;
  type = "code-server";
  runtime = "containerd";
  image = "code-server:1";
  tz = "UTC";
  puid = 1000;
  pgid = 1000;
  default_home = "/config";
  default_workspace = "workspace";
  init_plugins = [];
}

abbrev pub code_template : Template
code_template = record {
  kind = "ContainerTemplate";
  name = "code";
  namespace = "";
  port = 3000;
  container_template_spec = some code_spec;
  entry_point_ref = none;
  entry_point_spec = none;
}

abbrev pub demo_config : KodeResourceConfig
demo_config = init_kode_resources_config (demo active) code_template

abbrev pub demo_secret : Secret
demo_secret = record { labels = []; data_ = construct_secret_data (credentials (demo active)) }

abbrev pub demo_stateful_set : StatefulSet
demo_stateful_set = record {
  labels = [];
  spec = record {
    replicas = some 1;
    match_labels = [];
    service_name = "demo-svc";
    template = record {
      labels = [];
      annotations = [];
      init_containers = [];
      containers = [];
      volumes = [];
      runtime_class_name = none;
    };
  };
  ready_replicas = 1;
}

abbrev pub demo_pod : Pod
demo_pod = record {
  name = "demo-0";
  phase = pod_running;
  conditions = record { is_pod_ready = true; status_true = true } ∷ [];
  images = "code-server:1" ∷ [];
}

abbrev pub demo_entry_point_spec : EntryPointSpec
demo_entry_point_spec = record {
  routing_type = "subdomain";
  base_domain = "example.com";
  gateway_spec = some (record { existing_gateway_ref = none; protocol = "http" });
  auth_spec = none;
}

abbrev pub demo_entry_point : EntryPoint
demo_entry_point = record {
  name = "entry";
  namespace = "gateways";
  finalizers = [];
  spec = demo_entry_point_spec;
  status = record {
    observed_generation = 1;
    conditions = [];
    last_error = none;
    last_error_time = none;
    phase = active;
    retry_count = 0;
    deletion_cycle = 0;
  };
}

abbrev pub world : Env
world = record {
  get_kode = λ t n ns. ok (demo active);
  patch_kode_status = λ t k. none;
  update_kode = λ t k. none;
  get_secret = λ t n ns. ok demo_secret;
  get_service = λ t n ns. ok (construct_service demo_config);
  get_stateful_set = λ t n ns. ok demo_stateful_set;
  get_pvc = λ t n ns. ok claim;
  list_pods = λ t ns l. ok (demo_pod ∷ []);
  delete_object = λ t r. none;
  put_object = λ t c. none;
  get_container_template = λ t n ns. err missing;
  get_cluster_container_template = λ t n. ok code_spec;
  get_entry_point = λ t n ns. ok demo_entry_point;
  patch_entry_point_status = λ t e. none;
  update_entry_point = λ t e. ok e;
  put_http_route = λ t r. ok operation_created;
  put_security_policy = λ t p. ok operation_created;
  now = λ t. 7;
  sha256 = λ parts. join "" parts;
  path_join = λ a b. a <> "/" <> b;
  yaml = record {
    marshal_manager = λ m. ok "";
    unmarshal = λ s. ok (text s);
    marshal_bootstrap = λ c. ok "";
  };
  finalizers = record {
    contains = λ fs f. any (λ g. str_eq g f) fs;
    add = λ fs f. f ∷ fs;
    remove = λ fs f. remove_all f fs;
    contains-add = contains-add;
    contains-remove = contains-remove_all;
  };
  is_test_environment = false;
  reconcile_interval = 5;
  long_reconcile_interval = 60;
  retry_on_conflict = λ fn. fn;
  retry_attempts = λ fn s. Attempts.last s (fn s) refl;
  create_or_patch_pvc = λ f s. put_after (f claim s);
  put_runs = λ f s. put_ran f s (f claim s) refl;
  exponential_backoff = backoff;
  backoff_runs = backoff_runs;
}

-- A reconciliation of `demo` in a phase.
abbrev pub demo_state : Phase → St
demo_state phase = record {
  kode = demo phase;
  cache = [];
  fetched = none;
  entry_point = demo_entry_point;
  calls = [];
}
