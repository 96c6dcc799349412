-- ===== src/Kode/Config.antt =====
-- config.go of internal/controllers/kode, and KodeResourceConfig of internal/common/types.go.
use kode_operator.Prelude.{ℕ, String, false, none, some, List, [], ◌∷◌}
use kode_operator.Api.{Kode, KodeSpec, CredentialsSpec, Template, InitPluginSpec}
use kode_operator.Api.Names.{default_username}
use kode_operator.Objects.{Labels}

-- `Containers`, `InitContainers` and `ServiceName` stay at their empty values and are left out. `Credentials` points to the
-- credentials of the Kode where it has some, so a write through it shows in the Kode: it is read by `credentials`.
pub record KodeResourceConfig : Type 0 where
  pub labels : Labels
  pub name : String
  pub namespace : String
  pub kode_spec : KodeSpec
  pub user_init_plugins : List InitPluginSpec
  pub template : Template
  pub port : ℕ

unfoldable pub create_labels : Kode → Template → Labels
create_labels kode template =
    ("app.kubernetes.io/name", kode.name)
    ∷ ("app.kubernetes.io/managed-by", "kode-operator")
    ∷ ("kode.jacero.io/name", kode.name)
    ∷ ("template.kode.jacero.io/name", template.name)
    ∷ []

unfoldable pub init_kode_resources_config : Kode → Template → KodeResourceConfig
unfolding create_labels
init_kode_resources_config kode template = record {
  labels = create_labels kode template;
  name = kode.name;
  namespace = kode.namespace;
  kode_spec = kode.spec;
  user_init_plugins = kode.spec.init_plugins;
  template = template;
  port = template.port;
}

abbrev pub default_credentials : CredentialsSpec
default_credentials = record {
  username = default_username;
  password = "";
  existing_secret = none;
  enable_builtin_auth = false;
}

-- `config.Credentials`
unfoldable pub credentials : Kode → CredentialsSpec
credentials k = elim (k.spec.credentials) [ none ↦ default_credentials | some c ↦ c ]
