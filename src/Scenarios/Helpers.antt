-- ===== src/Scenarios/Helpers.antt =====
-- The theorems on the helpers, the managers and the methods of an EntryPoint at concrete inputs.
use kode_operator.Prelude.{
  String, str_eq, Option, none, List, [], ◌∷◌, lookup, ◌≡◌, refl, false≢true, sym,
}
use kode_operator.Go.{Error, ok, done, Exec}
use kode_operator.Api.{EnvVar}
use kode_operator.Env.{OperationResult, operation_created}
use kode_operator.Envoy.Containers.{bare_container}
use kode_operator.Common.{mask_spec, merge_labels}
use kode_operator.Common.Masking.{Alike, AllAlike, mask_spec-hides}
use kode_operator.Common.Merging.{last_value, lookup-merge_labels}
use kode_operator.Managers.{GroupVersionKind, Object, Scheme}

maps_unique : (lookup {V = String} "app" [] ≡ none) × Unit {0}
unfolding lookup
maps_unique = (refl, tt)

lookup-merge_labels_example :
    lookup "app" (merge_labels ((("app", "old") ∷ []) ∷ (("app", "new") ∷ []) ∷ []))
    ≡ last_value "app" ((("app", "old") ∷ []) ∷ (("app", "new") ∷ []) ∷ []) none
lookup-merge_labels_example =
    lookup-merge_labels "app" ((("app", "old") ∷ []) ∷ (("app", "new") ∷ []) ∷ [])
      (maps_unique, (maps_unique, tt))

abbrev variable : String → EnvVar
variable value = record { name = "PASSWORD"; value = value; value_from = none }

variables-Alike : Alike (variable "secret") (variable "public")
unfolding str_eq
variables-Alike = record {
  same_name = refl;
  same_source = refl;
  same_length = refl;
  same_public = λ h. elim (false≢true (sym h)) [ ];
}

mask_spec-hides_example :
    mask_spec (record (bare_container "kode" "code:1") { env = variable "secret" ∷ [] })
    ≡ mask_spec (record (bare_container "kode" "code:1") { env = variable "public" ∷ [] })
mask_spec-hides_example =
    mask_spec-hides (bare_container "kode" "code:1") (variable "secret" ∷ [])
      (variable "public" ∷ [])
      (AllAlike.more (variable "secret") (variable "public") [] [] variables-Alike AllAlike.none)

abbrev kode_kind : GroupVersionKind
kode_kind = record { group = "kode.jacero.io"; version = "v1alpha2"; kind = "Kode" }

abbrev demo_scheme : Scheme
demo_scheme t = ok (kode_kind ∷ [])

abbrev demo_object : Object
demo_object = record {
  go_type = "*v1alpha2.Kode";
  name = "demo";
  namespace = "default";
  type_info = record { group = ""; version = ""; kind = "" };
}

abbrev demo_client : Object → Exec (List Object) (OperationResult × Option Error)
demo_client o s = (done (operation_created, none), o ∷ s)
