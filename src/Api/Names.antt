-- ===== src/Api/Names.antt =====
-- The names of a Kode's child resources and its URL: the methods of kode_types.go that only read,
-- and the names of pkg/constant/constant.go.
use kode_operator.Prelude.{String, ◌<>◌, str_eq, Option, none, some, if◌then◌else◌}
use kode_operator.Go.{Result, ok, err, new_error}
use kode_operator.Api.{Kode}

abbrev pub kode_finalizer_name : String
kode_finalizer_name = "kode.jacero.io/kode-finalizer"

abbrev pub entry_point_finalizer_name : String
entry_point_finalizer_name = "kode.jacero.io/entrypoint-finalizer"

abbrev pub default_kode_volume_storage_name : String
default_kode_volume_storage_name = "kode-storage"

abbrev pub default_username : String
default_username = "abc"

-- `k.Spec.Credentials != nil && k.Spec.Credentials.ExistingSecret != nil`
abbrev pub existing_secret : Kode → Option String
existing_secret k = elim (k.spec.credentials) [ none ↦ none | some c ↦ c.existing_secret ]

-- `k.Spec.Storage != nil && k.Spec.Storage.ExistingVolumeClaim != nil`
abbrev pub existing_volume_claim : Kode → Option String
existing_volume_claim k = elim (k.spec.storage) [ none ↦ none | some s ↦ s.existing_volume_claim ]

unfoldable pub get_secret_name : Kode → String
get_secret_name k = elim (existing_secret k) [ none ↦ k.name <> "-auth" | some s ↦ s ]

unfoldable pub get_service_name : Kode → String
get_service_name k = k.name <> "-svc"

unfoldable pub get_stateful_set_name : Kode → String
get_stateful_set_name k = k.name

unfoldable pub get_pvc_name : Kode → String
get_pvc_name k = elim (existing_volume_claim k) [ none ↦ k.name <> "-pvc" | some c ↦ c ]

pub record KodeAddress : Type 0 where
  pub hostname : String
  pub domain : String
  pub url : String
  pub path : String

-- `GenerateKodeUrlForEntryPoint`
unfoldable pub generate_kode_url : String → String → String → String → Result KodeAddress
generate_kode_url routing_type domain name protocol =
    if str_eq routing_type "subdomain"
    then ok (record {
      hostname = name;
      domain = name <> "." <> domain;
      url = protocol <> "://" <> (name <> "." <> domain) <> "/";
      path = "/";
    })
    else if str_eq routing_type "path"
    then ok (record {
      hostname = name;
      domain = domain;
      url = protocol <> "://" <> domain <> "/" <> name;
      path = "/" <> name;
    })
    else err (new_error ("unsupported routing type: " <> routing_type))
