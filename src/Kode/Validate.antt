-- ===== src/Kode/Validate.antt =====
-- validate_resources.go of internal/controllers/kode.
use kode_operator.Prelude.{
  ℕ, String, ◌<>◌, str_eq, any, all, lookup, decimal, Bool, true, false, not, Option, none, some,
  List, [], ◌∷◌, ◌&&◌, ◌==◌, is_some, is_none, length, if◌then◌else◌,
}
use kode_operator.Go.{
  Error, new_error, wrap, ◌>>=◌, pure, deref, nil_pointer, if_err, if_failed, if_some,
}
use kode_operator.Api.{
  Kode, KodeStorageSpec, VolumeMount, storage_request, ContainerTemplateSharedSpec,
}
use kode_operator.Api.Names.{get_secret_name, get_service_name, get_stateful_set_name, get_pvc_name}
use kode_operator.Objects.{Container, Secret, Service, StatefulSet, PersistentVolumeClaim}
use kode_operator.Env.{Env, M, ask, get}
use kode_operator.Kode.Config.{KodeResourceConfig}
use kode_operator.Kode.Checks.{builtin_auth, has_port}
use kode_operator.Kode.Changes.{has_required_labels}

unfoldable pub has_mode : List String → String → Bool
has_mode modes m = any (λ a. str_eq a m) modes

unfoldable pub has_matching_access_modes : List String → List String → Bool
unfolding has_mode
has_matching_access_modes actual required =
    length actual == length required && all (has_mode actual) required

-- `if !b { return fmt.Errorf(message) }`
abbrev pub require : Bool → String → M (Option Error) → M (Option Error)
require true message rest = rest
require false message rest = pure (some (new_error message))

unfoldable pub secret_error : Kode → KodeResourceConfig → Secret → Option Error
secret_error kode config s =
    if is_none (lookup "username" s.data_)
    then some (new_error "secret missing required field: username")
    else if builtin_auth kode && is_none (lookup "password" s.data_)
    then some (
        new_error
          "secret missing required field: password (required when EnableBuiltinAuth is true)")
    else if not (has_required_labels s.labels config.labels)
    then some (new_error "secret missing required labels")
    else none

-- The text of the selector error names the first key in the order of the map's iteration, which is not modelled.
unfoldable pub service_error : KodeResourceConfig → Service → Option Error
service_error config s =
    if not (has_port config.port s.ports)
    then some (new_error ("service missing required port: " <> decimal config.port))
    else if not (has_required_labels s.selector config.labels)
    then some (new_error "service missing or has incorrect selector")
    else none

abbrev one_replica : Option ℕ → Bool
one_replica none = false
one_replica (some n) = n == 1

unfoldable pub has_storage_mount : List VolumeMount → Bool
has_storage_mount = any (λ m. str_eq m.name "kode-storage")

unfoldable pub container_error :
    KodeResourceConfig → ContainerTemplateSharedSpec → Container → Option Error
unfolding has_storage_mount
container_error config t main =
    if not (str_eq main.image t.image)
    then some (
        new_error ("container has incorrect image: expected " <> t.image <> ", got " <> main.image))
    else if is_some config.kode_spec.storage && not (has_storage_mount main.volume_mounts)
    then some (new_error "container missing required storage volume mount")
    else none

-- The `%d` of the replica count prints a pointer, which is not modelled.
unfoldable pub validate_pods : KodeResourceConfig → StatefulSet → M (Option Error)
unfolding container_error
validate_pods config s =
    if not (one_replica s.spec.replicas)
    then pure (some (new_error "statefulset has incorrect replica count"))
    else elim (s.spec.template.containers) [
      | [] ↦ pure (some (new_error "statefulset has no containers configured"))
      | main ∷ rest ↦ do
        t ← deref config.template.container_template_spec
        pure (container_error config t main)
    ]

module _ (env : Env) where
  unfoldable pub validate_secret : Kode → KodeResourceConfig → M (Option Error)
  validate_secret kode config = do
    found ← ask (λ t. env.get_secret t (get_secret_name kode) kode.namespace)
    if_failed found (λ e. pure (some (wrap "failed to get Secret" e)))
        (λ s. pure (secret_error kode config s))

  unfoldable pub validate_service : Kode → KodeResourceConfig → M (Option Error)
  validate_service kode config = do
    found ← ask (λ t. env.get_service t (get_service_name kode) kode.namespace)
    if_failed found (λ e. pure (some (wrap "failed to get Service" e)))
        (λ s. pure (service_error config s))

  unfoldable pub validate_stateful_set : Kode → KodeResourceConfig → M (Option Error)
  validate_stateful_set kode config = do
    found ← ask (λ t. env.get_stateful_set t (get_stateful_set_name kode) kode.namespace)
    if_failed found (λ e. pure (some (wrap "failed to get StatefulSet" e)))
        (λ s. validate_pods config s)

  -- The error message of a wrong storage class reads the class that the claim has: a claim
  -- with none is a nil pointer there.
  unfoldable pub validate_class :
      Option String → Option String → M (Option Error) → M (Option Error)
  validate_class none actual rest = rest
  validate_class (some wanted) none rest = nil_pointer
  validate_class (some wanted) (some actual) rest =
      if str_eq actual wanted
      then rest
      else pure (
          some (
            new_error
              ("pvc has incorrect storage class: expected " <> wanted <> ", got " <> actual)))

  unfoldable pub size_matches : KodeStorageSpec → PersistentVolumeClaim → Bool
  size_matches storage p = elim (storage.resources) [
    | none ↦ true
    | some r ↦ storage_request r == storage_request p.spec.resources
  ]

  unfoldable pub validate_pvc : Kode → KodeStorageSpec → M (Option Error)
  validate_pvc kode storage =
      let check = (do
        found ← ask (λ t. env.get_pvc t (get_pvc_name kode) kode.namespace)
        if_failed found (λ e. pure (some (wrap "failed to get PVC" e)))
            (λ p. validate_class storage.storage_class_name p.spec.storage_class_name (
              require (has_matching_access_modes p.spec.access_modes storage.access_modes)
                "pvc has incorrect access modes"
                (require (size_matches storage p) "pvc has incorrect storage size"
                  (pure none))))) in
      if is_some storage.existing_volume_claim then pure none else check

  abbrev pub step : String → M (Option Error) → M (Option Error) → M (Option Error)
  step what check rest = do e ← check; if_err e (λ e. pure (some (wrap what e))) rest

  unfoldable pub validate_configuration : KodeResourceConfig → M (Option Error)
  validate_configuration config = do
    kode ← get
    step "secret validation failed" (validate_secret kode config) (
        step "service validation failed" (validate_service kode config) (
          step "statefulset validation failed" (validate_stateful_set kode config) (
            if_some config.kode_spec.storage
              (λ storage. step "pvc validation failed" (validate_pvc kode storage) (pure none))
              (pure none))))
