-- ===== src/Scenarios/Routes.antt =====
-- The theorems on the EntryPoint controller at concrete inputs: the Kode `demo` behind the EntryPoint `entry`.
use kode_operator.Prelude.{
  String, ◌<>◌, str_eq, true, false, none, some, [], ◌∷◌, lookup, ◌≡◌, ◌≢◌, refl, sym, ap,
  false≢true,
}
use kode_operator.Go.{
  ok, done, panic, ◌>>=◌, ◌>>◌, pure, deref, gets, if_err, if_failed, if_some, when,
}
use kode_operator.Api.{Kode, Template, same_phase, active, EntryPoint}
use kode_operator.Api.Names.{KodeAddress, generate_kode_url}
use kode_operator.Gateway.{HttpRoute}
use kode_operator.Env.{Env, St, get, ask, call}
use kode_operator.KodeObject.{get_port, update_status, try_update_status}
use kode_operator.KodeObject.Laws.{same_phase_refl}
use kode_operator.Template.{fetch, validate_ref, get_cache_key}
use kode_operator.StateMachine.{stop}
use kode_operator.Common.{get_latest_entry_point}
use kode_operator.EntryPoint.Answers.{Answer, reconcile_kode-Answer}
use kode_operator.EntryPoint.Backed.{Backed, reconcile_kode-Backed}
use kode_operator.EntryPoint.Config.{
  EntryPointResourceConfig, init_entry_point_resources_config, gateway_of, create_labels, is_https,
}
use kode_operator.EntryPoint.Pointers.{reconcile_kode-panics}
use kode_operator.EntryPoint.Publishing.{
  Finds, Accepts, Published, reconcile_kode-Published, reconcile_kode-settled,
}
use kode_operator.EntryPoint.Reconcile.{
  find_entry_point_for_kode, find_from, find_latest, reconcile_kode, reconcile,
}
use kode_operator.EntryPoint.Routes.{
  construct_http_route, construct_http_route_rules, construct_route_name,
  construct_parent_reference, ensure_http_routes,
}
use kode_operator.EntryPoint.Safety.{
  reconcile-others, others, policies, ensure_http_routes-insecure,
}
use kode_operator.EntryPoint.Urls.{matches_of, path-overlaps, subdomain-separates}
use kode_operator.Scenarios.World.{
  code_spec, code_template, demo, demo_entry_point, world, demo_state,
}

-- The template of `demo`, with a reference to the EntryPoint `entry`.
abbrev routed_template : Template
routed_template = record code_template {
  container_template_spec = some (record code_spec {
    entry_point_ref =
        some (record { kind = "EntryPoint"; name = "entry"; namespace = some "gateways" });
  });
}

abbrev routed_state : String → St
routed_state url = record (demo_state active) {
  kode = record (demo active) { status = record ((demo active).status) { kode_url = url } };
  cache = ("ContainerTemplate//code", routed_template) ∷ [];
}

abbrev demo_address : KodeAddress
demo_address = record {
  hostname = "demo";
  domain = "demo.example.com";
  url = "http://demo.example.com/";
  path = "/";
}

abbrev entry_config : EntryPointResourceConfig
entry_config = record {
  labels =
      ("app.kubernetes.io/name", "entry") ∷ ("app.kubernetes.io/managed-by", "kode-operator") ∷ [];
  name = "entry";
  namespace = "gateways";
  entry_point_spec = demo_entry_point.spec;
  gateway_name = "entry-gateway";
  gateway_namespace = "";
  protocol = "http";
  identity_reference = some "";
}

demo-Finds : (url : String) → Finds world (routed_state url) demo_address
unfolding same_phase find_entry_point_for_kode find_from find_latest fetch validate_ref
    get_cache_key lookup get_latest_entry_point ask get gets deref if_err if_failed if_some pure
    ◌>>=◌ ◌>>◌ str_eq init_entry_point_resources_config gateway_of create_labels generate_kode_url
demo-Finds url = record {
  is_active = refl;
  entry_point = demo_entry_point;
  config = entry_config;
  left = routed_state url;
  finds = refl;
  configured = λ x. refl;
  generated = refl;
}

world-Accepts : Accepts world
unfolding update_status try_update_status get ask call if_failed when ◌>>=◌ ◌>>◌ pure
world-Accepts = record {
  knows = λ t name namespace. refl;
  saves = λ x. rw same_phase_refl refl;
  takes_routes = λ t r. refl;
  takes_policies = λ t p. refl;
}

url_unset : str_eq "" "http://demo.example.com/" ≡ false
unfolding str_eq
url_unset = refl

reconcile_kode-Published_example : Published world (routed_state "") demo_address (demo-Finds "")
reconcile_kode-Published_example =
    reconcile_kode-Published world (routed_state "") demo_address (demo-Finds "") world-Accepts
      url_unset refl

reconcile_kode-settled_example :
    ((reconcile_kode world (routed_state "http://demo.example.com/")).0 ≡ done (stop, none))
    × ((reconcile_kode world (routed_state "http://demo.example.com/")).1.calls ≡ [])
    × ((reconcile_kode world (routed_state "http://demo.example.com/")).1.kode
        ≡ (routed_state "http://demo.example.com/").kode)
reconcile_kode-settled_example =
    reconcile_kode-settled world (routed_state "http://demo.example.com/") demo_address
      (demo-Finds "http://demo.example.com/") refl

reconcile_kode-Backed_example : Backed "demo" 3000 (reconcile_kode world (routed_state "")).1.calls
reconcile_kode-Backed_example = reconcile_kode-Backed world (routed_state "") tt

reconcile_kode-Answer_example :
    Answer active
      (reconcile_kode world (routed_state "")).0
      (reconcile_kode world (routed_state "")).1
reconcile_kode-Answer_example = reconcile_kode-Answer world (routed_state "")

reconcile-others_example :
    others (reconcile world "demo" "default" (routed_state "")).1.calls ≡ others []
reconcile-others_example = reconcile-others world "demo" "default" (routed_state "")

not_https : is_https entry_config ≡ false
unfolding is_https str_eq
not_https = refl

ensure_http_routes-insecure_example :
    policies (ensure_http_routes world entry_config "demo.example.com" (routed_state "")).1.calls
    ≡ policies ((routed_state "").calls)
ensure_http_routes-insecure_example =
    ensure_http_routes-insecure world entry_config not_https "demo.example.com" (routed_state "")

-- An EntryPoint without a gateway.
abbrev bare_entry_point : EntryPoint
bare_entry_point = record demo_entry_point {
  spec = record (demo_entry_point.spec) { gateway_spec = none };
}

abbrev bare_world : Env
bare_world = record world { get_entry_point = λ t n ns. ok bare_entry_point }

bare_found :
    find_entry_point_for_kode bare_world (routed_state "")
    ≡ (done (ok bare_entry_point), routed_state "")
unfolding find_entry_point_for_kode find_from find_latest fetch validate_ref get_cache_key lookup
    get_latest_entry_point ask get gets deref if_err if_failed if_some pure ◌>>=◌ ◌>>◌ str_eq
bare_found = refl

demo_active : same_phase active active ≡ true
unfolding same_phase
demo_active = refl

reconcile_kode-panics_example :
    ((reconcile_kode bare_world (routed_state "")).0 ≡ panic)
    × ((reconcile_kode bare_world (routed_state "")).1.calls ≡ [])
reconcile_kode-panics_example =
    reconcile_kode-panics bare_world (routed_state "") (routed_state "") bare_entry_point
      demo_active bare_found refl

abbrev other_address : KodeAddress
other_address = record {
  hostname = "other";
  domain = "other.example.com";
  url = "http://other.example.com/";
  path = "/";
}

subdomain_generated : generate_kode_url "subdomain" "example.com" "demo" "http" ≡ ok demo_address
unfolding generate_kode_url str_eq
subdomain_generated = refl

other_generated : generate_kode_url "subdomain" "example.com" "other" "http" ≡ ok other_address
unfolding generate_kode_url str_eq
other_generated = refl

names_differ : ◌≢◌ {A = String} "demo" "other"
unfolding str_eq
names_differ e = false≢true (sym (ap (str_eq "demo") e))

subdomain-separates_example :
    (demo_address.domain ≢ other_address.domain) × (demo_address.url ≢ other_address.url)
subdomain-separates_example =
    subdomain-separates "example.com" "http" "demo" "other" demo_address other_address names_differ
      subdomain_generated other_generated

abbrev path_address : String → KodeAddress
path_address name = record {
  hostname = name;
  domain = "example.com";
  url = "http" <> "://" <> "example.com" <> "/" <> name;
  path = "/" <> name;
}

path_generated :
    (name : String) → generate_kode_url "path" "example.com" name "http" ≡ ok (path_address name)
unfolding generate_kode_url str_eq
path_generated name = refl

-- The Kode `demo` under another name.
abbrev other : Kode
other = record (demo active) { name = "other" }

abbrev path_route : Kode → HttpRoute
path_route k = record {
  name = construct_route_name k false;
  namespace = "gateways";
  labels = entry_config.labels;
  parent_refs = construct_parent_reference entry_config ∷ [];
  hostnames = "example.com" ∷ [];
  rules = construct_http_route_rules false entry_config k (get_port k);
}

demo_constructed :
    construct_http_route entry_config (demo active) false "example.com"
    ≡ ok (path_route (demo active))
unfolding construct_http_route
demo_constructed = refl

other_constructed :
    construct_http_route entry_config other false "example.com" ≡ ok (path_route other)
unfolding construct_http_route
other_constructed = refl

path-overlaps_example :
    ((path_route (demo active)).hostnames ≡ (path_route other).hostnames)
    × (matches_of (path_route (demo active)) ≡ matches_of (path_route other))
path-overlaps_example =
    path-overlaps entry_config (demo active) other "example.com" (path_address "demo")
      (path_address "other") (path_route (demo active)) (path_route other) (path_generated "demo")
      (path_generated "other") demo_constructed other_constructed
