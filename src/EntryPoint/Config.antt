-- ===== src/EntryPoint/Config.antt =====
-- config.go and cleanup.go of internal/controllers/entrypoint, and EntryPointResourceConfig of
-- internal/common/types.go.
use kode_operator.Prelude.{
  String, ◌<>◌, str_eq, Bool, true, Option, none, some, [], ◌∷◌, get_or, is_some,
}
use kode_operator.Go.{◌>>=◌, pure, deref}
use kode_operator.Api.{EntryPoint, EntryPointSpec, AuthSpec, CrossNamespaceObjectReference}
use kode_operator.Objects.{Labels, http_route}
use kode_operator.Cleanup.{CleanupableResource}
use kode_operator.Env.{M}

abbrev pub protocol_https : String
protocol_https = "https"

-- The fields of `CommonConfig` stand first. The pointers in `entry_point_spec` are the EntryPoint's own.
pub record EntryPointResourceConfig : Type 0 where
  pub labels : Labels
  pub name : String
  pub namespace : String
  pub entry_point_spec : EntryPointSpec
  pub gateway_name : String
  pub gateway_namespace : String
  pub protocol : String
  pub identity_reference : Option String

unfoldable pub is_https : EntryPointResourceConfig → Bool
is_https c = str_eq c.protocol protocol_https

unfoldable pub has_identity_reference : EntryPointResourceConfig → Bool
has_identity_reference c = is_some c.identity_reference

unfoldable pub create_labels : EntryPoint → Labels
create_labels e =
    ("app.kubernetes.io/name", e.name) ∷ ("app.kubernetes.io/managed-by", "kode-operator") ∷ []

-- The name and the namespace of the gateway.
unfoldable pub gateway_of : EntryPoint → Option CrossNamespaceObjectReference → M (String × String)
gateway_of e none = pure (e.name <> "-gateway", "")
gateway_of e (some ref) = do namespace ← deref ref.namespace; pure (ref.name, namespace)

-- `*entryPoint.Spec.AuthSpec.IdentityReference`, where there is one
abbrev pub identity_of : Option AuthSpec → String
identity_of none = ""
identity_of (some a) = get_or a.identity_reference ""

unfoldable pub init_entry_point_resources_config : EntryPoint → M EntryPointResourceConfig
init_entry_point_resources_config e = do
  gateway ← deref e.spec.gateway_spec
  (gateway_name, gateway_namespace) ← gateway_of e gateway.existing_gateway_ref
  pure (record {
    labels = create_labels e;
    name = e.name;
    namespace = e.namespace;
    entry_point_spec = e.spec;
    gateway_name = gateway_name;
    gateway_namespace = gateway_namespace;
    protocol = gateway.protocol;
    identity_reference = some (identity_of e.spec.auth_spec);
  })

-- `NewEntryPointCleanupResource`, with `GetResources` and `ShouldDelete`
unfoldable pub new_entry_point_cleanup_resource : EntryPoint → CleanupableResource
new_entry_point_cleanup_resource e = record {
  get_resources = record { kind = http_route; name = e.name; namespace = e.namespace } ∷ [];
  should_delete = λ r. true;
}
