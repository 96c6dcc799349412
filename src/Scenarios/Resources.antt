-- ===== src/Scenarios/Resources.antt =====
-- The theorems on the child resources and the sidecars at concrete inputs.
use kode_operator.Prelude.{
  str_eq, lookup, any, all, length, [], ◌∷◌, ◌≡◌, refl, true, false, none, some, ◌==◌,
}
use kode_operator.Go.{Result, err, ok, done, ◌>>=◌, pure, deref, if_failed}
use kode_operator.Go.Keeps.{Yields}
use kode_operator.Condition.{Condition, ready, is_true, get_condition, find_condition, type_name}
use kode_operator.Api.{active}
use kode_operator.Env.{Env, ask}
use kode_operator.Validation.{validate_kode}
use kode_operator.Validation.Laws.{missing_images, validate_kode-images}
use kode_operator.Envoy.{generate_envoy_config}
use kode_operator.Envoy.{generate_envoy_config}
use kode_operator.Envoy.Wiring.{Wired, generate_envoy_config-Wired}
use kode_operator.Kode.Checks.{
  check_secret_ready, check_service_ready, check_stateful_set_ready, check_pvc_ready,
  check_pods_ready, compose_resource_checks, run_checks, check_resources_ready, secret_ready,
  has_port, pods_ready, pod_ready,
}
use kode_operator.Kode.Config.{init_kode_resources_config, credentials, create_labels}
use kode_operator.Kode.Claims.{Mutated, mutate_existing_pvc-Mutated}
use kode_operator.Kode.Ensure.{
  construct_pvc_spec, mutate_existing_pvc, construct_secret_data, construct_service,
}
use kode_operator.Kode.Changes.{images_differ, detect_stateful_set_changes, detect_pvc_changes}
use kode_operator.Kode.Mutations.{fixed_differ, detect_pvc_changes-mutated}
use kode_operator.Kode.Current.{is_current, detect_stateful_set_changes-written}
use kode_operator.Kode.Handlers.Active.{ensure_condition}
use kode_operator.Kode.Health.{ensure_condition-stale}
use kode_operator.Kode.Readiness.{Passes, check_resources_ready_sound}
use kode_operator.Kode.Constructed.{construct_stateful_set_spec-validated}
use kode_operator.Kode.StatefulSet.{main_container, construct_stateful_set_spec}
use kode_operator.Envoy.Containers.{ensure_sidecar_containers}
use kode_operator.Kode.Validate.{validate_pods}
use kode_operator.Objects.{PersistentVolumeClaim, StatefulSetSpec}
use kode_operator.Scenarios.World.{
  code_spec, demo_stateful_set, demo_storage, claim, demo, demo_spec, demo_config, world,
  demo_state, demo_pod,
}

abbrev ready_condition : Condition
ready_condition = record {
  type = "Ready";
  status = is_true;
  reason = "ResourcesReady";
  message = "All Kode resources are ready";
  last_transition_time = 1;
}

all_ready :
    check_resources_ready world (demo active) demo_config (demo_state active)
    ≡ (done (ok true), demo_state active)
unfolding check_resources_ready run_checks compose_resource_checks check_secret_ready
    check_service_ready check_stateful_set_ready check_pvc_ready check_pods_ready ask ◌>>=◌
    if_failed pure deref secret_ready has_port pods_ready pod_ready lookup any all str_eq
    construct_secret_data construct_service credentials init_kode_resources_config create_labels
all_ready = refl

check_resources_ready_sound_example :
    Passes (check_secret_ready world (demo active) demo_config) (demo_state active)
    × Passes (check_service_ready world (demo active) demo_config) (demo_state active)
    × Passes (check_stateful_set_ready world (demo active) demo_config) (demo_state active)
    × Passes (check_pvc_ready world (demo active) demo_config) (demo_state active)
    × Passes (check_pods_ready world (demo active) demo_config) (demo_state active)
check_resources_ready_sound_example =
    check_resources_ready_sound world (demo active) demo_config (demo_state active)
      (demo_state active) all_ready

ready_found : get_condition ready (demo active).status.conditions ≡ some ready_condition
unfolding get_condition find_condition type_name str_eq
ready_found = refl

other_reason : str_eq "ResourcesReady" "ResourcesHealthy" ≡ false
unfolding str_eq
other_reason = refl

ensure_condition-stale_example :
    ensure_condition world ready is_true "ResourcesHealthy" "All resources are healthy"
      (demo_state active)
    ≡ (done true, demo_state active)
ensure_condition-stale_example =
    ensure_condition-stale world ready is_true "ResourcesHealthy" "All resources are healthy"
      (demo_state active) ready_condition ready_found refl other_reason

validate_kode-images_example :
    (length (validate_kode (demo active)).errors ≡ missing_images demo_spec.init_plugins)
    × ((validate_kode (demo active)).valid ≡ (missing_images demo_spec.init_plugins == 0))
validate_kode-images_example = validate_kode-images (demo active)

config_generated : generate_envoy_config world.yaml 8000 true ≡ ok ""
unfolding generate_envoy_config
config_generated = refl

generate_envoy_config-Wired_example : Wired world.yaml 8000 true ""
generate_envoy_config-Wired_example =
    generate_envoy_config-Wired world.yaml 8000 true "" config_generated

mutate_existing_pvc-Mutated_example :
    Yields
      (λ p.
        Mutated claim claim p (record (claim.spec) { resources = record { requests = some 20 } }))
      (mutate_existing_pvc world true
        (record (claim.spec) { resources = record { requests = some 20 } })
        claim
        claim)
mutate_existing_pvc-Mutated_example =
    mutate_existing_pvc-Mutated world true
      (record (claim.spec) { resources = record { requests = some 20 } }) claim claim

abbrev spec_of : Result StatefulSetSpec → StatefulSetSpec
spec_of (ok spec) = spec
spec_of (err e) = demo_stateful_set.spec

demo_spec_built :
    construct_stateful_set_spec world (demo active) demo_config code_spec
    ≡ ok (spec_of (construct_stateful_set_spec world (demo active) demo_config code_spec))
unfolding construct_stateful_set_spec main_container ensure_sidecar_containers generate_envoy_config
    str_eq init_kode_resources_config
demo_spec_built = refl

demo_template : demo_config.template.container_template_spec ≡ some code_spec
unfolding init_kode_resources_config
demo_template = refl

construct_stateful_set_spec-validated_example :
    validate_pods demo_config
      (record demo_stateful_set {
        spec = spec_of (construct_stateful_set_spec world (demo active) demo_config code_spec);
      })
      (demo_state active)
    ≡ (done none, demo_state active)
construct_stateful_set_spec-validated_example =
    construct_stateful_set_spec-validated world (demo active) demo_config code_spec
      (spec_of (construct_stateful_set_spec world (demo active) demo_config code_spec))
      demo_stateful_set (demo_state active) demo_template demo_spec_built

-- The world in which the StatefulSet of the Kode has the spec that constructStatefulSetSpec makes.
abbrev written_world : Env
written_world = record world {
  get_stateful_set = λ t n ns. ok (record demo_stateful_set {
    spec = spec_of (construct_stateful_set_spec world (demo active) demo_config code_spec);
  });
}

written_spec_built :
    construct_stateful_set_spec written_world (demo active) demo_config code_spec
    ≡ ok (spec_of (construct_stateful_set_spec world (demo active) demo_config code_spec))
unfolding construct_stateful_set_spec main_container ensure_sidecar_containers generate_envoy_config
    str_eq init_kode_resources_config
written_spec_built = refl

demo_pod-is_current :
    all
      (is_current
        (spec_of (
          construct_stateful_set_spec world
            (demo active)
            demo_config
            code_spec)).template.containers)
      (demo_pod ∷ [])
    ≡ true
unfolding all images_differ str_eq construct_stateful_set_spec generate_envoy_config
demo_pod-is_current = refl

detect_stateful_set_changes-written_example :
    detect_stateful_set_changes written_world demo_config (demo_state active)
    ≡ (done (ok false), demo_state active)
detect_stateful_set_changes-written_example =
    detect_stateful_set_changes-written written_world demo_config code_spec (demo_state active)
      demo_stateful_set
      (spec_of (construct_stateful_set_spec world (demo active) demo_config code_spec))
      (demo_pod ∷ []) demo_template written_spec_built refl refl demo_pod-is_current

-- The Kode's claim with another access mode than the Kode asks for.
abbrev wide_claim : PersistentVolumeClaim
wide_claim = record claim { spec = record (claim.spec) { access_modes = "ReadWriteMany" ∷ [] } }

abbrev wide_world : Env
wide_world = record world { get_pvc = λ t n ns. ok wide_claim }

claim_built :
    construct_pvc_spec demo_config (demo_state active) ≡ (done claim.spec, demo_state active)
unfolding construct_pvc_spec init_kode_resources_config ◌>>=◌ pure deref
claim_built = refl

wide_claim_left :
    (mutate_existing_pvc wide_world true claim.spec wide_claim wide_claim (demo_state active)).0
    ≡ done wide_claim
unfolding mutate_existing_pvc pure
wide_claim_left = refl

demo_storage_stored : demo_config.kode_spec.storage ≡ demo_spec.storage
unfolding init_kode_resources_config
demo_storage_stored = refl

detect_pvc_changes-mutated_example :
    detect_pvc_changes wide_world demo_config (demo_state active)
    ≡ (done (ok (fixed_differ wide_claim claim.spec)), demo_state active)
detect_pvc_changes-mutated_example =
    detect_pvc_changes-mutated wide_world true demo_config demo_storage claim.spec wide_claim
      wide_claim wide_claim (demo_state active) (demo_state active) demo_storage_stored refl
      claim_built wide_claim_left refl
