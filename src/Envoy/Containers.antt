-- ===== src/Envoy/Containers.antt =====
-- The sidecar containers: pkg/envoy/envoy.go and ensureSidecarContainers of
-- internal/controllers/kode/ensure_container_sidecars.go.
use kode_operator.Prelude.{
  ℕ, String, ◌<>◌, str_eq, decimal, format_int, Bool, false, none, some, List, [], ◌∷◌,
  if◌then◌else◌,
}
use kode_operator.Go.{Result, ok, err, wrap}
use kode_operator.Api.{Kode, Template, EnvVar}
use kode_operator.Objects.{Container}
use kode_operator.Envoy.{Yaml, generate_envoy_config}

abbrev pub envoy_proxy_run_as_user : ℕ
envoy_proxy_run_as_user = 1337

abbrev pub bare_container : String → String → Container
bare_container name image = record {
  name = name;
  image = image;
  command = [];
  args = [];
  env = [];
  ports = [];
  volume_mounts = [];
  run_as_user = none;
}

-- The capability NET_ADMIN that the container is given is not modelled.
unfoldable pub create_proxy_setup_container : ℕ → Container
create_proxy_setup_container port =
    record (bare_container "proxy-init" "openpolicyagent/proxy_init:v8") {
      args = "-p" ∷ decimal port ∷ "-u" ∷ format_int envoy_proxy_run_as_user 16 ∷ [];
      run_as_user = some 0;
    }

unfoldable pub create_envoy_container : ℕ → String → Container
create_envoy_container port envoy_config =
    record (bare_container "envoy-proxy" "envoyproxy/envoy:v1.31-latest") {
      args = "--config-yaml" ∷ envoy_config ∷ [];
      ports = record { name = "envoy-http"; container_port = port } ∷ [];
      run_as_user = some envoy_proxy_run_as_user;
    }

abbrev from_secret : String → String → String → EnvVar
from_secret name secret key = record { name = name; value = ""; value_from = some (secret, key) }

unfoldable pub create_basic_auth_container : String → Container
create_basic_auth_container name =
    record (bare_container "basic-auth-sidecar" "your-basic-auth-sidecar-image:v0.0.0-latest") {
      ports = record { name = "auth"; container_port = 9001 } ∷ [];
      env =
          from_secret "AUTH_USERNAME" (name <> "-auth") "username"
          ∷ from_secret "AUTH_PASSWORD" (name <> "-auth") "password"
          ∷ [];
    }

-- Whether the template's EntryPoint asks for basic authentication.
unfoldable pub use_basic_auth : Template → Bool
use_basic_auth template = elim (template.entry_point_spec) [
  | none ↦ false
  | some e ↦ elim (e.auth_spec) [ none ↦ false | some a ↦ str_eq a.auth_type "basicAuth" ]
]

-- `ConstructEnvoyContainers`, of the configuration's name, port and template: the containers and the init containers.
unfoldable pub construct_envoy_containers :
    Yaml → String → ℕ → Template → Result (List Container × List Container)
unfolding create_proxy_setup_container create_envoy_container create_basic_auth_container
    use_basic_auth
construct_envoy_containers yaml name port template =
    elim (generate_envoy_config yaml port (use_basic_auth template)) [
      | err e ↦ err (wrap "failed to generate Envoy config" e)
      | ok envoy_config ↦ ok (
        record (create_envoy_container port envoy_config) {
          ports = record { name = "proxy-http"; container_port = port } ∷ [];
        }
            ∷ (if use_basic_auth template then create_basic_auth_container name ∷ [] else []),
        create_proxy_setup_container port ∷ [],
      )
    ]

unfoldable pub ensure_sidecar_containers :
    Yaml → String → ℕ → Template → Result (List Container × List Container)
unfolding construct_envoy_containers
ensure_sidecar_containers yaml name port template =
    elim (construct_envoy_containers yaml name port template) [
      | err e ↦ err (wrap "failed to construct Envoy containers" e)
      | ok cs ↦ ok cs
    ]

-- `corev1.ConfigMap`, with the fields that are set
pub record ConfigMap : Type 0 where
  pub name : String
  pub namespace : String
  pub data_ : List (String × String)

-- `constructBasicAuthConfigMap`. The answer of `yaml.Marshal` for the default configuration of the library
-- of basic authentication is an argument.
unfoldable pub construct_basic_auth_config_map : Result String → Kode → Result ConfigMap
construct_basic_auth_config_map (err e) kode = err (wrap "failed to marshal basic auth config" e)
construct_basic_auth_config_map (ok yaml_data) kode = ok (record {
  name = kode.name <> "-basic-auth-config";
  namespace = kode.namespace;
  data_ = ("config.yaml", yaml_data) ∷ [];
})
