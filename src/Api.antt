-- ===== src/Api.antt =====
-- The custom resources: kode_types.go, common_types.go, reference_types.go, initplugin_types.go,
-- entrypoint_types.go and shared_containertemplate_types.go of api/v1alpha2.
-- A pointer field that may be nil is an Option. Fields that no code under internal/ or pkg/ reads
-- are left out.
pub mod Names
use kode_operator.Prelude.{
  ℕ, String, Bool, true, false, Option, none, some, List, ◌&&◌, ◌||◌, ◌==◌, is_none, get_or,
}
use kode_operator.Condition.{Condition}

-- `PhasePending` to `PhaseUnknown`. The API server stores any text: `phase_other` is one that no constant names,
-- such as the empty phase of a new resource.
pub data Phase : Type 0 where
  pending configuring provisioning active updating deleting failed phase_unknown : Phase
  phase_other : Phase

-- `a == b`
unfoldable pub same_phase : Phase → Phase → Bool
same_phase pending pending = true
same_phase configuring configuring = true
same_phase provisioning provisioning = true
same_phase active active = true
same_phase updating updating = true
same_phase deleting deleting = true
same_phase failed failed = true
same_phase phase_unknown phase_unknown = true
same_phase phase_other phase_other = true
same_phase _ _ = false

pub record CrossNamespaceObjectReference : Type 0 where
  pub kind : String
  pub name : String
  pub namespace : Option String

pub record CredentialsSpec : Type 0 where
  pub username : String
  pub password : String
  pub existing_secret : Option String
  pub enable_builtin_auth : Bool

-- The resource requirements of a volume: the quantity requested under "storage", where there is one.
pub record VolumeResourceRequirements : Type 0 where
  pub requests : Option ℕ

-- `Requests.Storage()`: the zero quantity where nothing is requested.
abbrev pub storage_request : VolumeResourceRequirements → ℕ
storage_request r = get_or r.requests 0

pub record KodeStorageSpec : Type 0 where
  pub access_modes : List String
  pub storage_class_name : Option String
  pub resources : Option VolumeResourceRequirements
  pub keep_volume : Option Bool
  pub existing_volume_claim : Option String

abbrev no_modes : List String → Bool
no_modes List.[] = true
no_modes (List.◌∷◌ m ms) = false

abbrev no_request : Option VolumeResourceRequirements → Bool
no_request none = true
no_request (some r) = storage_request r == 0

-- `IsEmpty`, on a pointer that may be nil
unfoldable pub is_empty : Option KodeStorageSpec → Bool
is_empty none = true
is_empty (some s) =
    no_modes s.access_modes
    && is_none s.storage_class_name
    && is_none s.existing_volume_claim
    && no_request s.resources

pub record EnvVar : Type 0 where
  pub name : String
  pub value : String
  -- the secret and its key of `ValueFrom`
  pub value_from : Option (String × String)

pub record VolumeMount : Type 0 where
  pub name : String
  pub mount_path : String

pub record InitPluginSpec : Type 0 where
  pub name : String
  pub image : String
  pub command : List String
  pub args : List String
  pub env : List EnvVar
  pub volume_mounts : List VolumeMount

pub record KodeSpec : Type 0 where
  pub template_ref : CrossNamespaceObjectReference
  pub credentials : Option CredentialsSpec
  pub home : Option String
  pub workspace : Option String
  pub storage : Option KodeStorageSpec
  pub init_plugins : List InitPluginSpec

-- `KodeRuntime` and `RuntimeType`
pub data KodeRuntime : Type 0 where
  runtime_container runtime_virtual : KodeRuntime

pub record Runtime : Type 0 where
  pub runtime : KodeRuntime
  pub type : String

-- `CommonStatus` and `KodeStatus`
pub record KodeStatus : Type 0 where
  pub observed_generation : ℕ
  pub conditions : List Condition
  pub last_error : Option String
  pub last_error_time : Option ℕ
  pub phase : Phase
  pub kode_url : String
  pub kode_port : ℕ
  pub runtime : Option Runtime
  pub retry_count : ℕ
  pub deletion_cycle : ℕ

pub record Kode : Type 0 where
  pub name : String
  pub namespace : String
  pub generation : ℕ
  -- whether `DeletionTimestamp` is set
  pub deleted : Bool
  pub finalizers : List String
  pub spec : KodeSpec
  pub status : KodeStatus

-- `egv1alpha1.ExtAuth` of the Envoy gateway, the parts that the routes change: the headers sent to the service that
-- authorizes, and those that a service over HTTP hands to the backend.
pub record ExtAuth : Type 0 where
  pub headers_to_ext_auth : List String
  -- `HTTP.HeadersToBackend`, where `HTTP` is not nil
  pub headers_to_backend : Option (List String)

pub record SecurityPolicySpec : Type 0 where
  pub ext_auth : Option ExtAuth

pub record GatewaySpec : Type 0 where
  pub existing_gateway_ref : Option CrossNamespaceObjectReference
  pub protocol : String

pub record AuthSpec : Type 0 where
  pub auth_type : String
  pub security_policy_spec : Option SecurityPolicySpec
  pub identity_reference : Option String

pub record EntryPointSpec : Type 0 where
  pub routing_type : String
  pub base_domain : String
  pub gateway_spec : Option GatewaySpec
  pub auth_spec : Option AuthSpec

-- `CommonStatus` and `EntryPointStatus`
pub record EntryPointStatus : Type 0 where
  pub observed_generation : ℕ
  pub conditions : List Condition
  pub last_error : Option String
  pub last_error_time : Option ℕ
  pub phase : Phase
  pub retry_count : ℕ
  pub deletion_cycle : ℕ

pub record EntryPoint : Type 0 where
  pub name : String
  pub namespace : String
  pub finalizers : List String
  pub spec : EntryPointSpec
  pub status : EntryPointStatus

-- `ContainerTemplateSharedSpec`, with the fields of `CommonSpec` that are read
pub record ContainerTemplateSharedSpec : Type 0 where
  pub entry_point_ref : Option CrossNamespaceObjectReference
  pub port : ℕ
  pub type : String
  pub runtime : String
  pub image : String
  pub tz : String
  pub puid : ℕ
  pub pgid : ℕ
  pub default_home : String
  pub default_workspace : String
  pub init_plugins : List InitPluginSpec

pub record Template : Type 0 where
  pub kind : String
  pub name : String
  pub namespace : String
  pub port : ℕ
  pub container_template_spec : Option ContainerTemplateSharedSpec
  pub entry_point_ref : Option CrossNamespaceObjectReference
  pub entry_point_spec : Option EntryPointSpec
