-- ===== src/Envoy/Wiring.antt =====
-- The parts of the bootstrap configuration refer to one another by name: every reference is to a cluster that is there.
use kode_operator.Prelude.{
  ℕ, String, str_eq, any, all, ◌≡◌, refl, Bool, true, false, List, [], ◌∷◌, ◌++◌, if◌then◌else◌,
  Option, none, some,
}
use kode_operator.Envoy.Types.{
  Value, text, entries, Fields, end, field, Cluster, HttpFilterConfig, Route, SingleRoute,
  VirtualHost, HttpConnectionManager, BootstrapConfig, Filter, FilterChain, Listener,
}
use kode_operator.Go.{Result, ok, err}
use kode_operator.Envoy.{
  Yaml, relabel, ◌>>=◌, generate_envoy_config, http_connection_manager, get_http_filters,
  get_clusters, bootstrap_config,
}

-- The texts under a key, at any depth.
mutual
  texts_at : String → Value → List String
  texts_at key (text s) = []
  texts_at key (entries fs) = texts_in key fs

  texts_in : String → Fields → List String
  texts_in key end = []
  texts_in key (field k (text s) fs) =
      let rest = texts_in key fs in if str_eq k key then s ∷ rest else rest
  texts_in key (field k (entries gs) fs) = texts_in key gs ++ texts_in key fs

config_clusters : Option Value → List String
config_clusters none = []
config_clusters (some v) = texts_at "cluster_name" v

filter_clusters : List HttpFilterConfig → List String
filter_clusters [] = []
filter_clusters (f ∷ fs) = config_clusters f.typed_config.value ++ filter_clusters fs

routed : List Route → List String
routed [] = []
routed (r ∷ rs) = single r.route ++ routed rs
  where
    single : Option SingleRoute → List String
    single none = []
    single (some s) = s.cluster ∷ []

route_clusters : List VirtualHost → List String
route_clusters [] = []
route_clusters (h ∷ hs) = routed h.routes ++ route_clusters hs

-- The clusters that the connection manager names: where its routes lead, and whom its filters ask.
unfoldable pub named_clusters : HttpConnectionManager → List String
unfolding config_clusters filter_clusters routed route_clusters texts_at texts_in
named_clusters m = route_clusters m.route_config.virtual_hosts ++ filter_clusters m.http_filters

unfoldable pub defines : BootstrapConfig → String → Bool
defines config name = any (λ (c : Cluster). str_eq c.name name) config.static_resources.clusters

-- Every cluster that the routes and filters of the generated configuration name is one that
-- the configuration defines, with and without basic authentication, on any port.
bootstrap_config-defines :
    (port : ℕ) (use_basic_auth : Bool) (manager : Value)
    → all
        (defines (bootstrap_config port use_basic_auth manager))
        (named_clusters (http_connection_manager use_basic_auth))
      ≡ true
unfolding named_clusters defines all any bootstrap_config get_clusters http_connection_manager
    get_http_filters str_eq config_clusters filter_clusters routed route_clusters texts_at texts_in
bootstrap_config-defines port true manager = refl
bootstrap_config-defines port false manager = refl

-- The typed configurations of the filters of all listeners, and the ports that the listeners have.
filter_values : List Filter → List (Option Value)
filter_values [] = []
filter_values (f ∷ fs) = f.typed_config.value ∷ filter_values fs

chain_values : List FilterChain → List (Option Value)
chain_values [] = []
chain_values (c ∷ cs) = filter_values c.filters ++ chain_values cs

unfoldable pub listener_values : List Listener → List (Option Value)
unfolding chain_values filter_values
listener_values [] = []
listener_values (l ∷ ls) = chain_values l.filter_chains ++ listener_values ls

unfoldable pub listener_ports : List Listener → List ℕ
listener_ports [] = []
listener_ports (l ∷ ls) = l.address.socket_address.port_value ∷ listener_ports ls

-- Where a generated text comes from: a connection manager is written and read back, what is read is the one filter of the
-- configuration, which listens on the port, and the configuration is written. Every cluster that the manager
-- names is one that this configuration defines, and it names the service of basic
-- authentication just if that is asked for.
pub record Wired (yaml : Yaml) (port : ℕ) (use_basic_auth : Bool) (printed : String) : Type 0 where
  pub manager : HttpConnectionManager
  pub config : BootstrapConfig
  pub bytes : String
  pub value : Value
  pub written : yaml.marshal_manager manager ≡ ok bytes
  pub read : yaml.unmarshal bytes ≡ ok value
  pub filters : listener_values config.static_resources.listeners ≡ some value ∷ []
  pub listens : listener_ports config.static_resources.listeners ≡ port ∷ []
  pub prints : yaml.marshal_bootstrap config ≡ ok printed
  pub closed : all (defines config) (named_clusters manager) ≡ true
  pub authenticates : any (str_eq "basic_auth_service") (named_clusters manager) ≡ use_basic_auth

relabel-ok :
    {A : Type 0} (prefix : String) (r : Result A) (a : A) → relabel prefix r ≡ ok a → r ≡ ok a
relabel-ok prefix (ok x) a h = h
relabel-ok prefix (err e) a h = absurd (cc h)

bind-ok :
    {A B : Type 0} (prefix : String) (r : Result A) (f : A → Result B) (b : B)
    → (relabel prefix r >>= f) ≡ ok b
    → ((a : A) × (r ≡ ok a) × (f a ≡ ok b))
bind-ok prefix (ok a) f b h = (a, refl, h)
bind-ok prefix (err e) f b h = absurd (cc h)

authenticates-asked :
    (use_basic_auth : Bool)
    → any (str_eq "basic_auth_service") (named_clusters (http_connection_manager use_basic_auth))
      ≡ use_basic_auth
unfolding named_clusters any http_connection_manager get_http_filters str_eq config_clusters
    filter_clusters routed route_clusters texts_at texts_in
authenticates-asked true = refl
authenticates-asked false = refl

-- A text that GenerateEnvoyConfig returns is the configuration that has, as its one filter on the port, a connection manager that
-- was written and read back; each cluster that this manager's routes and filters name is defined by the
-- configuration, and the service of basic authentication is named just if it is asked for.
pub generate_envoy_config-Wired :
    (yaml : Yaml) (port : ℕ) (use_basic_auth : Bool) (printed : String)
    → generate_envoy_config yaml port use_basic_auth ≡ ok printed
    → Wired yaml port use_basic_auth printed
unfolding generate_envoy_config bootstrap_config listener_values listener_ports chain_values
    filter_values
generate_envoy_config-Wired yaml port use_basic_auth printed h =
    let (bytes, w, h') =
      bind-ok _ (yaml.marshal_manager (http_connection_manager use_basic_auth)) _ printed h in
    let (value, r, h'') = bind-ok _ (yaml.unmarshal bytes) _ printed h' in
    record {
      manager = http_connection_manager use_basic_auth;
      config = bootstrap_config port use_basic_auth value;
      bytes = bytes;
      value = value;
      written = w;
      read = r;
      filters = refl;
      listens = refl;
      prints = relabel-ok _ _ printed h'';
      closed = bootstrap_config-defines port use_basic_auth value;
      authenticates = authenticates-asked use_basic_auth;
    }
