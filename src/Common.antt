-- ===== src/Common.antt =====
-- internal/common/utils.go. ContextWithTimeout and the functions that take the address of a value are
-- left out: contexts are not modelled, and an address is an Option.
pub mod Masking
pub mod Merging
use Prim.Native.Char.{Char}
use kode_operator.Prelude.{ℕ, String, ◌<>◌, str_eq, List, [], ◌∷◌, map, insert, ◌||◌, if◌then◌else◌}
use kode_operator.Go.{Result}
use kode_operator.Api.{Kode, EntryPoint, EnvVar}
use kode_operator.Objects.{Labels, Secret, Container}
use kode_operator.Env.{Env, M, ask}

module _ (env : Env) where
  unfoldable pub get_latest_kode : String → String → M (Result Kode)
  get_latest_kode name namespace = ask (λ t. env.get_kode t name namespace)

  unfoldable pub get_latest_entry_point : String → String → M (Result EntryPoint)
  get_latest_entry_point name namespace = ask (λ t. env.get_entry_point t name namespace)

-- A star for each character.
unfoldable pub mask_string : String → String
mask_string String.[] = ""
mask_string (String.◌∷◌ c s) = "*" <> mask_string s

unfoldable pub mask_entries : Labels → Labels
unfolding mask_string
mask_entries [] = []
mask_entries ((k, v) ∷ rest) =
    (k, if str_eq k "password" || str_eq k "secret" then mask_string v else v) ∷ mask_entries rest

unfoldable pub mask_secret_data : Secret → Labels
unfolding mask_entries
mask_secret_data secret = mask_entries secret.data_

unfoldable pub mask_env_var : EnvVar → EnvVar
unfolding mask_string
mask_env_var e =
    if str_eq e.name "PASSWORD" || str_eq e.name "SECRET"
    then record e { value = mask_string e.value }
    else e

unfoldable pub mask_env_vars : List EnvVar → List EnvVar
unfolding mask_env_var
mask_env_vars envs = map mask_env_var envs

unfoldable pub mask_spec : Container → Container
unfolding mask_env_vars
mask_spec spec = record spec { env = mask_env_vars spec.env }

-- The inner loop of MergeLabels: the entries of one map are put into the result.
unfoldable pub put_all : Labels → Labels → Labels
put_all [] result = result
put_all ((k, v) ∷ rest) result = put_all rest (insert k v result)

-- The outer loop.
unfoldable pub merge_from : List Labels → Labels → Labels
unfolding put_all
merge_from [] result = result
merge_from (labels ∷ rest) result = merge_from rest (put_all labels result)

unfoldable pub merge_labels : List Labels → Labels
unfolding merge_from
merge_labels labels_slice = merge_from labels_slice []
