-- ===== src/Kode/StatefulSet.antt =====
-- ensure_container_statefulset.go of internal/controllers/kode.
use kode_operator.Prelude.{
  String, ◌<>◌, str_eq, decimal, insert, not, Option, none, some, List, [], ◌∷◌, ◌++◌, ◌&&◌, map,
  if◌then◌else◌,
}
use kode_operator.Go.{
  Error, Result, ok, err, new_error, describe, wrap, ◌>>=◌, pure, deref, if_failed,
}
use kode_operator.Api.{
  Kode, KodeSpec, ContainerTemplateSharedSpec, InitPluginSpec, EnvVar, VolumeMount,
}
use kode_operator.Api.Names.{
  get_secret_name, get_pvc_name, get_stateful_set_name, default_kode_volume_storage_name,
}
use kode_operator.Objects.{Labels, Container, ContainerPort, Volume, StatefulSetSpec}
use kode_operator.Envoy.{default_kode_pod_port}
use kode_operator.Envoy.Containers.{bare_container, ensure_sidecar_containers}
use kode_operator.Env.{Env, M, put_stateful_set, call}
use kode_operator.Kode.Config.{KodeResourceConfig, credentials}

abbrev pub pod_template_hash : String
pod_template_hash = "kode.jacero.io/pod-template-hash"

abbrev plain : String → String → EnvVar
plain name value = record { name = name; value = value; value_from = none }

-- The password, if built-in authentication is on and there is one.
unfoldable pub password_env : Kode → List EnvVar
password_env kode =
    if (credentials kode).enable_builtin_auth && not (str_eq (credentials kode).password "")
    then record {
      name = "PASSWORD";
      value = "";
      value_from = some (get_secret_name kode, "password");
    }
      ∷ []
    else []

unfoldable pub construct_code_server_container :
    Kode → ContainerTemplateSharedSpec → String → Container
unfolding password_env
construct_code_server_container kode t workspace = record (bare_container "code-server" t.image) {
  env =
      (plain "PUID" (decimal t.puid)
        ∷ plain "PGID" (decimal t.pgid)
        ∷ plain "TZ" t.tz
        ∷ plain "PORT" (decimal default_kode_pod_port)
        ∷ plain "USERNAME" (credentials kode).username
        ∷ plain "DEFAULT_WORKSPACE" workspace
        ∷ [])
      ++ password_env kode;
}

unfoldable pub construct_webtop_container : Kode → ContainerTemplateSharedSpec → Container
unfolding password_env
construct_webtop_container kode t = record (bare_container "webtop" t.image) {
  env =
      (plain "PUID" (decimal t.puid)
        ∷ plain "PGID" (decimal t.pgid)
        ∷ plain "TZ" t.tz
        ∷ plain "CUSTOM_PORT" (decimal default_kode_pod_port)
        ∷ plain "CUSTOM_USER" (credentials kode).username
        ∷ [])
      ++ password_env kode;
}

unfoldable pub construct_container_port : ContainerPort
construct_container_port = record { name = "main-http"; container_port = default_kode_pod_port }

unfoldable pub construct_volumes_and_mounts :
    String → Kode → KodeResourceConfig → List Volume × List VolumeMount
construct_volumes_and_mounts mount_path kode config = elim (config.kode_spec.storage) [
  | none ↦ ([], [])
  | some s ↦ (
    record { name = default_kode_volume_storage_name; claim_name = get_pvc_name kode } ∷ [],
    record { name = default_kode_volume_storage_name; mount_path = mount_path } ∷ [],
  )
]

unfoldable pub construct_init_plugin_container : InitPluginSpec → Container
construct_init_plugin_container p = record (bare_container ("plugin-" <> p.name) p.image) {
  command = p.command;
  args = p.args;
  env = p.env;
  volume_mounts = p.volume_mounts;
}

abbrev env_bytes : List EnvVar → List String
env_bytes [] = []
env_bytes (v ∷ vs) = v.name ∷ v.value ∷ env_bytes vs

abbrev container_bytes : List Container → List String
container_bytes [] = []
container_bytes (c ∷ cs) = (c.image ∷ c.name ∷ env_bytes c.env) ++ container_bytes cs

abbrev init_bytes : List Container → List String
init_bytes [] = []
init_bytes (c ∷ cs) = c.image ∷ c.name ∷ init_bytes cs

-- What calculatePodTemplateHash writes to the hasher.
unfoldable pub hash_input : List Container → List Container → List Volume → List String
hash_input containers init_containers volumes =
    container_bytes containers ++ init_bytes init_containers ++ map (λ (v : Volume). v.name) volumes

-- The working directory of the code server, and where the volume is mounted.
unfoldable pub workspace_and_mount :
    (String → String → String) → KodeSpec → ContainerTemplateSharedSpec → String × String
workspace_and_mount path_join spec t = elim (spec.workspace) [
  | none ↦ (path_join t.default_home t.default_workspace, t.default_home)
  | some w ↦ elim (spec.home) [
    | none ↦ (path_join t.default_home w, t.default_home)
    | some h ↦ (path_join h w, h)
  ]
]

-- The switch on the template's type.
unfoldable pub main_container : Kode → ContainerTemplateSharedSpec → String → Result Container
unfolding construct_code_server_container construct_webtop_container
main_container kode t workspace =
    if str_eq t.type "code-server"
    then ok (construct_code_server_container kode t workspace)
    else if str_eq t.type "webtop"
    then ok (construct_webtop_container kode t)
    else err (new_error ("unknown template type: " <> t.type))

-- The labels that the loop of the mutate function sets.
abbrev pub set_labels : Labels → Labels → Labels
set_labels [] labels = labels
set_labels ((k, v) ∷ rest) labels = set_labels rest (insert k v labels)

module _ (env : Env) where
  -- The StatefulSet of the containers and the volumes; its update strategy is not modelled.
  unfoldable pub assemble :
      KodeResourceConfig
      → ContainerTemplateSharedSpec
      → List Container
      → List Container
      → List Volume
      → StatefulSetSpec
  unfolding hash_input
  assemble config t containers init_containers volumes = record {
    replicas = some 1;
    match_labels = config.labels;
    service_name = "";
    template = record {
      labels = config.labels;
      annotations =
          (pod_template_hash, env.sha256 (hash_input containers init_containers volumes)) ∷ [];
      init_containers = init_containers;
      containers = containers;
      volumes = volumes;
      runtime_class_name = if str_eq t.runtime "" then none else some t.runtime;
    };
  }

  unfoldable pub construct_stateful_set_spec :
      Kode → KodeResourceConfig → ContainerTemplateSharedSpec → Result StatefulSetSpec
  unfolding workspace_and_mount main_container construct_container_port construct_volumes_and_mounts
      construct_init_plugin_container ensure_sidecar_containers assemble
  construct_stateful_set_spec kode config t =
      let (workspace, mount_path) = workspace_and_mount env.path_join config.kode_spec t in
      let (volumes, volume_mounts) = construct_volumes_and_mounts mount_path kode config in
      elim (main_container kode t workspace) [
        | err e ↦ err e
        | ok main ↦
            elim (ensure_sidecar_containers env.yaml config.name config.port config.template) [
              | err e ↦ err (describe "failed to ensure sidecar containers" e)
              | ok (sidecars, sidecar_inits) ↦ ok (
                  assemble config t
                    (record main {
                      ports = construct_container_port ∷ [];
                      volume_mounts = volume_mounts;
                    }
                      ∷ sidecars)
                    (sidecar_inits
                      ++ map construct_init_plugin_container t.init_plugins
                      ++ map construct_init_plugin_container config.user_init_plugins)
                    volumes)
            ]
      ]

  unfoldable pub ensure_stateful_set : Kode → KodeResourceConfig → M (Option Error)
  unfolding construct_stateful_set_spec
  ensure_stateful_set kode config = do
    t ← deref config.template.container_template_spec
    let desired = construct_stateful_set_spec kode config t
    if_failed desired (λ e. pure (some (wrap "failed to construct StatefulSet spec" e)))
        λ spec. do
          let put =
              put_stateful_set (get_stateful_set_name kode) config.labels
                (λ s. record s { spec = spec; labels = set_labels config.labels s.labels })
          call put (λ t. env.put_object t put)
