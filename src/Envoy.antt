-- ===== src/Envoy.antt =====
-- The Envoy sidecar's bootstrap configuration: pkg/envoy/bootstrap_config.go. The YAML library is a parameter. A port
-- is a number from 0 to 2^31 - 1 and is the same as a uint32. Marshalling the clusters once more for the log is not modelled.
pub mod Dynamic
pub mod Types
pub mod Wiring
pub mod Containers
use kode_operator.Prelude.{
  ℕ, String, Bool, true, Option, none, some, List, [], ◌∷◌, ◌++◌, if◌then◌else◌,
}
use kode_operator.Go.{Result, ok, err, Error, wrap}
use kode_operator.Envoy.Types.{
  Value, text, entries, Fields, end, field, nil, socket, no_health_check, LbEndpoint, no_locality,
  Cluster, HttpFilterConfig, HttpConnectionManager, BootstrapConfig,
}

-- `gopkg.in/yaml.v2`
pub record Yaml : Type 0 where
  pub marshal_manager : HttpConnectionManager → Result String
  pub unmarshal : String → Result Value
  pub marshal_bootstrap : BootstrapConfig → Result String

abbrev pub default_kode_pod_port : ℕ
default_kode_pod_port = 3000

abbrev pub ext_authz : HttpFilterConfig
ext_authz = record {
  name = "envoy.filters.http.ext_authz";
  typed_config = record {
    value = some (
        entries (
          field "@type"
            (text "type.googleapis.com/envoy.extensions.filters.http.ext_authz.v3.ExtAuthz")
            (field "grpc_service"
              (entries (
                field "envoy_grpc" (entries (field "cluster_name" (text "basic_auth_service") end))
                  (field "timeout" (text "0.25s") end)))
              end)));
  };
}

abbrev pub router : HttpFilterConfig
router = record {
  name = "envoy.filters.http.router";
  typed_config = record {
    value = some (
        entries (
          field "@type" (text "type.googleapis.com/envoy.extensions.filters.http.router.v3.Router")
            end));
  };
}

unfoldable pub get_http_filters : Bool → List HttpFilterConfig
get_http_filters use_basic_auth = (if use_basic_auth then ext_authz ∷ [] else []) ++ (router ∷ [])

abbrev endpoint_on : ℕ → LbEndpoint
endpoint_on port = record {
  endpoint = record {
    address = socket "127.0.0.1" port;
    health_check_config = no_health_check;
    hostname = "";
    additional_addresses = [];
  };
  health_status = "";
  metadata = nil;
  load_balancing_weight = 0;
}

abbrev cluster_on : String → ℕ → Cluster
cluster_on name port = record {
  name = name;
  connect_timeout = "0.25s";
  type = "STATIC";
  lb_policy = "ROUND_ROBIN";
  typed_extension_protocol_options = nil;
  load_assignment = record {
    cluster_name = name;
    endpoints =
        record {
          locality = no_locality;
          metadata = nil;
          lb_endpoints = endpoint_on port ∷ [];
          load_balancing_weight = 0;
          priority = 0;
        }
        ∷ [];
    policy = nil;
  };
}

unfoldable pub get_clusters : Bool → List Cluster
get_clusters use_basic_auth =
    (cluster_on "local_service" default_kode_pod_port ∷ [])
    ++ (if use_basic_auth then cluster_on "basic_auth_service" 9001 ∷ [] else [])

unfoldable pub http_connection_manager : Bool → HttpConnectionManager
http_connection_manager use_basic_auth = record {
  type =
      "type.googleapis.com/envoy.extensions.filters.network.http_connection_manager.v3.HttpConnectionManager";
  stat_prefix = "ingress_http";
  codec_type = "AUTO";
  route_config = record {
    name = "local_route";
    virtual_hosts =
        record {
          name = "local_service";
          domains = "*" ∷ [];
          routes =
              record {
                matches = record { prefix = "/" };
                route = some record { cluster = "local_service"; prefix_rewrite = "" };
                redirect = none;
                typed_per_filter_config = nil;
              }
              ∷ [];
        }
        ∷ [];
  };
  http_filters = get_http_filters use_basic_auth;
}

unfoldable pub bootstrap_config : ℕ → Bool → Value → BootstrapConfig
bootstrap_config port use_basic_auth manager = record {
  admin = record { access_log_path = "/dev/stdout"; address = socket "0.0.0.0" 9901 };
  static_resources = record {
    listeners =
        record {
          name = "listener_0";
          address = socket "0.0.0.0" port;
          filter_chains =
              record {
                filters =
                    record {
                      name = "envoy.filters.network.http_connection_manager";
                      typed_config = record { value = some manager };
                    }
                    ∷ [];
              }
              ∷ [];
        }
        ∷ [];
    clusters = get_clusters use_basic_auth;
  };
}

abbrev pub relabel : {A : Type 0} → String → Result A → Result A
relabel prefix (ok a) = ok a
relabel prefix (err e) = err (wrap prefix e)

infixl 5 ◌>>=◌
abbrev pub ◌>>=◌ : {A B : Type 0} → Result A → (A → Result B) → Result B
ok a >>= f = f a
err e >>= f = err e

-- `GenerateEnvoyConfig`, of the port in its configuration
unfoldable pub generate_envoy_config : Yaml → ℕ → Bool → Result String
generate_envoy_config yaml port use_basic_auth = do
  http_conn_bytes ←
      relabel "failed to marshal HTTP connection manager"
        (yaml.marshal_manager (http_connection_manager use_basic_auth))
  http_conn_map ←
      relabel "failed to unmarshal HTTP connection manager" (yaml.unmarshal http_conn_bytes)
  relabel "failed to marshal Envoy bootstrap config"
      (yaml.marshal_bootstrap (bootstrap_config port use_basic_auth http_conn_map))
