-- ===== src/Envoy/Types.antt =====
-- The structs of the Envoy configuration: pkg/envoy/types.go, less those that nothing uses. A zero value of the source is
-- a constant here.
use kode_operator.Prelude.{ℕ, String, Bool, false, Option, none, List}
use kode_operator.Envoy.Dynamic.{DynamicValue}

-- What YAML can hold, as far as the generator builds it. nil is no value.
mutual
  pub data Value : Type 0 where
    text : String → Value
    entries : Fields → Value

  pub data Fields : Type 0 where
    end : Fields
    field : String → Value → Fields → Fields

abbrev pub Dynamic : Type 0
Dynamic = DynamicValue Value

abbrev pub nil : Dynamic
nil = record { value = none }

pub record SocketAddress : Type 0 where
  pub address : String
  pub protocol : String
  pub port_value : ℕ

pub record Pipe : Type 0 where
  pub path : String
  pub mode : ℕ

pub record EnvoyInternalAddress : Type 0 where
  pub server_listener_name : String
  pub endpoint_id : String

pub record Address : Type 0 where
  pub socket_address : SocketAddress
  pub pipe : Pipe
  pub envoy_internal_address : EnvoyInternalAddress

-- An `Address` of which the address and the port of its socket are given
abbrev pub socket : String → ℕ → Address
socket address port = record {
  socket_address = record { address = address; protocol = ""; port_value = port };
  pipe = record { path = ""; mode = 0 };
  envoy_internal_address = record { server_listener_name = ""; endpoint_id = "" };
}

pub record AdditionalAddress : Type 0 where
  pub address : Address

pub record HealthCheckConfig : Type 0 where
  pub port_value : ℕ
  pub hostname : String
  pub address : Address
  pub disable_active_health_check : Bool

abbrev pub no_health_check : HealthCheckConfig
no_health_check = record {
  port_value = 0;
  hostname = "";
  address = socket "" 0;
  disable_active_health_check = false;
}

pub record Endpoint : Type 0 where
  pub address : Address
  pub health_check_config : HealthCheckConfig
  pub hostname : String
  pub additional_addresses : List AdditionalAddress

pub record LbEndpoint : Type 0 where
  pub endpoint : Endpoint
  pub health_status : String
  pub metadata : Dynamic
  pub load_balancing_weight : ℕ

pub record Locality : Type 0 where
  pub region : String
  pub zone : String
  pub sub_zone : String

abbrev pub no_locality : Locality
no_locality = record { region = ""; zone = ""; sub_zone = "" }

pub record LocalityLbEndpoints : Type 0 where
  pub locality : Locality
  pub metadata : Dynamic
  pub lb_endpoints : List LbEndpoint
  pub load_balancing_weight : ℕ
  pub priority : ℕ

pub record LoadAssignment : Type 0 where
  pub cluster_name : String
  pub endpoints : List LocalityLbEndpoints
  pub policy : Dynamic

pub record Cluster : Type 0 where
  pub name : String
  pub connect_timeout : String
  pub type : String
  pub lb_policy : String
  pub typed_extension_protocol_options : Dynamic
  pub load_assignment : LoadAssignment

pub record Filter : Type 0 where
  pub name : String
  pub typed_config : Dynamic

pub record FilterChain : Type 0 where
  pub filters : List Filter

pub record Listener : Type 0 where
  pub name : String
  pub address : Address
  pub filter_chains : List FilterChain

pub record Match : Type 0 where
  pub prefix : String

pub record SingleRoute : Type 0 where
  pub cluster : String
  pub prefix_rewrite : String

pub record Redirect : Type 0 where
  pub https_redirect : Bool

pub record Route : Type 0 where
  pub matches : Match
  pub route : Option SingleRoute
  pub redirect : Option Redirect
  pub typed_per_filter_config : Dynamic

pub record VirtualHost : Type 0 where
  pub name : String
  pub domains : List String
  pub routes : List Route

pub record RouteConfig : Type 0 where
  pub name : String
  pub virtual_hosts : List VirtualHost

pub record AdminServer : Type 0 where
  pub access_log_path : String
  pub address : Address

pub record HttpFilterConfig : Type 0 where
  pub name : String
  pub typed_config : Dynamic

pub record StaticResources : Type 0 where
  pub listeners : List Listener
  pub clusters : List Cluster

pub record BootstrapConfig : Type 0 where
  pub admin : AdminServer
  pub static_resources : StaticResources

pub record HttpConnectionManager : Type 0 where
  pub type : String
  pub stat_prefix : String
  pub codec_type : String
  pub route_config : RouteConfig
  pub http_filters : List HttpFilterConfig
