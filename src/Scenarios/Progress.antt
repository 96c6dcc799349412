-- ===== src/Scenarios/Progress.antt =====
-- The theorems on the way of a Kode to phase Active at concrete inputs.
use kode_operator.Prelude.{str_eq, any, all, lookup, get_or, true, false, none, [], ◌∷◌, ◌≡◌, refl}
use kode_operator.Go.{Result, ok, err, done, ◌>>=◌, ◌>>◌, pure, if_failed, when}
use kode_operator.Go.Keeps.{Holds}
use kode_operator.Api.{Kode, pending, updating, active}
use kode_operator.Api.Names.{get_secret_name, get_service_name, get_stateful_set_name}
use kode_operator.Objects.{Labels, StatefulSetSpec}
use kode_operator.Env.Store.{stored_secret, stored_service, stored_stateful_set}
use kode_operator.KodeObject.Saved.{last_saved}
use kode_operator.Env.{
  Env, St, get, ask, call, patch_status, put_secret, put_service, put_stateful_set,
}
use kode_operator.KodeObject.{update_status, try_update_status}
use kode_operator.KodeObject.Laws.{same_phase_refl}
use kode_operator.Envoy.{generate_envoy_config}
use kode_operator.Envoy.Containers.{ensure_sidecar_containers}
use kode_operator.Template.{validate_ref, get_cache_key}
use kode_operator.Validation.{validate_kode}
use kode_operator.Kode.Config.{init_kode_resources_config, create_labels, credentials}
use kode_operator.Kode.Checks.{pods_ready, pod_ready}
use kode_operator.Kode.Ensure.{construct_secret_data, construct_service}
use kode_operator.Kode.StatefulSet.{set_labels, main_container, construct_stateful_set_spec}
use kode_operator.Kode.Handlers.Create.{handle_configuring_state}
use kode_operator.Kode.Labels.{Fails, handle_configuring_state-Fails}
use kode_operator.Kode.Progress.{served, started, with_status, Accepted, Serves, Saved}
use kode_operator.Kode.Progress.Runs.{ReachesActive, reconcile-ReachesActive}
use kode_operator.Kode.Progress.Settled.{reconcile-Settles}
use kode_operator.Kode.Current.{is_current}
use kode_operator.Kode.Changes.{images_differ}
use kode_operator.Kode.Reconcile.{reconcile}
use kode_operator.StateMachine.{requeue}
use kode_operator.Scenarios.World.{
  world, demo, demo_spec, demo_state, demo_pod, demo_stateful_set, code_spec, code_template,
}

abbrev new_kode : Kode
new_kode = record (demo pending) {
  spec = record demo_spec { storage = none; init_plugins = [] };
  status = record ((demo pending).status) { retry_count = 0 };
}

abbrev spec_of : Result StatefulSetSpec → StatefulSetSpec
spec_of (ok spec) = spec
spec_of (err e) = demo_stateful_set.spec

abbrev built : StatefulSetSpec
built = spec_of (
    construct_stateful_set_spec world new_kode (init_kode_resources_config new_kode code_template)
      code_spec)

-- The API server holds what the calls have written, and gives back the status that was saved last.
abbrev serving : Env
serving = record world {
  get_kode = λ x n ns. ok (with_status new_kode (get_or (last_saved x) new_kode.status));
  get_secret = λ x n ns. served "" (stored_secret n x);
  get_service = λ x n ns. served "" (stored_service n x);
  get_stateful_set = λ x n ns. served "" (started (stored_stateful_set n x));
}

abbrev new_state : St
new_state = record (demo_state pending) {
  kode = new_kode;
  cache = (get_cache_key new_kode.spec.template_ref, code_template) ∷ [];
}

accepted : Accepted serving new_kode code_template code_spec built
unfolding any str_eq validate_ref validate_kode construct_stateful_set_spec main_container
    ensure_sidecar_containers generate_envoy_config init_kode_resources_config credentials
    get_secret_name
accepted = record {
  live = refl;
  held = refl;
  own_secret = refl;
  no_storage = refl;
  ref_valid = refl;
  valid = refl;
  template = refl;
  builds = λ st. refl;
}

-- The objects are written, but the secret that is found, that of the demo, has no labels.
abbrev unlabelled : Env
unlabelled = record serving { get_secret = world.get_secret }

handle_configuring_state-Fails_example :
    Holds Fails (handle_configuring_state unlabelled new_state).0
unfolding lookup
handle_configuring_state-Fails_example =
    handle_configuring_state-Fails unlabelled new_state (λ t. refl)

status_saved : (x : St) → (update_status serving x).0 ≡ done none
unfolding update_status try_update_status get ask call if_failed when ◌>>=◌ ◌>>◌ pure
status_saved x = rw same_phase_refl refl

pods_found_ready : pods_ready (demo_pod ∷ []) ≡ true
unfolding pods_ready pod_ready all
pods_found_ready = refl

abbrev serves : Serves serving new_kode code_template built
serves = record {
  message = "";
  pod = demo_pod;
  pods = [];
  kode = λ x. refl;
  secret = λ x. refl;
  service = λ x. refl;
  stateful_set = λ x. refl;
  running = λ x. refl;
  ready = pods_found_ready;
  takes = λ x c. refl;
  saves = status_saved;
}

new_state-Saved : Saved new_kode code_template built pending false false false new_state
unfolding any lookup str_eq get_cache_key last_saved stored_secret stored_service
    stored_stateful_set
new_state-Saved = record {
  same = refl;
  phase = refl;
  seen = refl;
  no_retry = refl;
  cached = refl;
  secret = refl;
  service = refl;
  stateful_set = refl;
}

reconcile-ReachesActive_example : ReachesActive serving new_kode code_template built new_state
reconcile-ReachesActive_example =
    reconcile-ReachesActive serving new_kode code_template code_spec built new_state accepted serves
      new_state-Saved

abbrev new_labels : Labels
new_labels = create_labels new_kode code_template

-- The same Kode, saved in phase Updating, its objects written.
abbrev updating_state : St
updating_state = record new_state {
  calls =
      patch_status (record new_kode { status = record (new_kode.status) { phase = updating } })
      ∷ put_stateful_set (get_stateful_set_name new_kode) new_labels
          (λ x. record x { spec = built; labels = set_labels new_labels x.labels })
      ∷ put_service (get_service_name new_kode) new_labels
          (λ x. construct_service (init_kode_resources_config new_kode code_template))
      ∷ put_secret (get_secret_name new_kode) new_labels
          (λ x. record x { data_ = construct_secret_data (credentials new_kode) })
      ∷ [];
}

updating_state-Saved : Saved new_kode code_template built updating true true true updating_state
unfolding any lookup str_eq get_cache_key last_saved stored_secret stored_service
    stored_stateful_set get_secret_name get_service_name get_stateful_set_name
updating_state-Saved = record {
  same = refl;
  phase = refl;
  seen = refl;
  no_retry = refl;
  cached = refl;
  secret = refl;
  service = refl;
  stateful_set = refl;
}

pod_current : all (is_current built.template.containers) (demo_pod ∷ []) ≡ true
unfolding all images_differ str_eq construct_stateful_set_spec generate_envoy_config
pod_current = refl

reconcile-Settles_example :
    ((reconcile serving new_kode.name new_kode.namespace updating_state).0 ≡ done (requeue, none))
    × Saved new_kode code_template built active true true true
        (reconcile serving new_kode.name new_kode.namespace updating_state).1
reconcile-Settles_example =
    reconcile-Settles serving new_kode code_template code_spec built updating_state accepted serves
      pod_current updating_state-Saved
