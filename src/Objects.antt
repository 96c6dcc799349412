-- ===== src/Objects.antt =====
-- The Kubernetes objects that the operator reads and writes, with the fields that it uses. Labels, annotations and secret
-- data are association lists; a quantity is its number of units.
use kode_operator.Prelude.{ℕ, String, Bool, true, false, Option, List}
use kode_operator.Api.{EnvVar, VolumeMount, VolumeResourceRequirements}

abbrev pub Labels : Type 0
Labels = List (String × String)

pub record Secret : Type 0 where
  pub labels : Labels
  pub data_ : Labels

pub record ServicePort : Type 0 where
  pub protocol : String
  pub port : ℕ
  pub target_port : ℕ

pub record Service : Type 0 where
  pub labels : Labels
  pub selector : Labels
  pub ports : List ServicePort

pub record ContainerPort : Type 0 where
  pub name : String
  pub container_port : ℕ

pub record Container : Type 0 where
  pub name : String
  pub image : String
  pub command : List String
  pub args : List String
  pub env : List EnvVar
  pub ports : List ContainerPort
  pub volume_mounts : List VolumeMount
  -- `SecurityContext.RunAsUser`
  pub run_as_user : Option ℕ

-- A volume backed by a claim.
pub record Volume : Type 0 where
  pub name : String
  pub claim_name : String

pub record PodTemplate : Type 0 where
  pub labels : Labels
  pub annotations : Labels
  pub init_containers : List Container
  pub containers : List Container
  pub volumes : List Volume
  pub runtime_class_name : Option String

pub record StatefulSetSpec : Type 0 where
  pub replicas : Option ℕ
  pub match_labels : Labels
  pub service_name : String
  pub template : PodTemplate

pub record StatefulSet : Type 0 where
  pub labels : Labels
  pub spec : StatefulSetSpec
  pub ready_replicas : ℕ

pub record PersistentVolumeClaimSpec : Type 0 where
  pub access_modes : List String
  pub resources : VolumeResourceRequirements
  pub storage_class_name : Option String
  pub volume_name : String

pub record PersistentVolumeClaim : Type 0 where
  pub labels : Labels
  pub annotations : Labels
  pub spec : PersistentVolumeClaimSpec
  pub bound : Bool

-- `PodRunning` and the other pod phases
pub data PodPhase : Type 0 where
  pod_running pod_not_running : PodPhase

-- A condition of a pod: whether its type is `PodReady`, and whether its status is true.
pub record PodCondition : Type 0 where
  pub is_pod_ready : Bool
  pub status_true : Bool

pub record Pod : Type 0 where
  pub name : String
  pub phase : PodPhase
  pub conditions : List PodCondition
  pub images : List String

-- The kinds that the operator deletes.
pub data Kind : Type 0 where
  stateful_set service secret persistent_volume_claim http_route pod : Kind

unfoldable pub same_kind : Kind → Kind → Bool
same_kind stateful_set stateful_set = true
same_kind service service = true
same_kind secret secret = true
same_kind persistent_volume_claim persistent_volume_claim = true
same_kind http_route http_route = true
same_kind pod pod = true
same_kind _ _ = false

-- `cleanup.Resource`, and a namespaced name with its kind
pub record Resource : Type 0 where
  pub kind : Kind
  pub name : String
  pub namespace : String
