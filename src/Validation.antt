-- ===== src/Validation.antt =====
-- pkg/validation/kode.go and validation.go.
pub mod Laws
use kode_operator.Prelude.{
  ℕ, suc, ◌+◌, String, ◌<>◌, str_eq, join, decimal, Bool, true, false, Option, none, some, List, [],
  ◌∷◌, ◌++◌, if◌then◌else◌,
}
use kode_operator.Go.{Error, new_error}
use kode_operator.Condition.{
  Condition, ConditionStatus, set_condition, validated, is_true, is_false,
}
use kode_operator.Api.{Kode, KodeSpec, InitPluginSpec}

pub record ValidationResult : Type 0 where
  pub valid : Bool
  pub errors : List String

unfoldable pub validate_init_plugin : InitPluginSpec → ℕ → Option Error
validate_init_plugin plugin index =
    if str_eq plugin.image ""
    then some (new_error ("initPlugin[" <> decimal index <> "]: image is required"))
    else none

abbrev pub with_error : ValidationResult → Option Error → ValidationResult
with_error r none = r
with_error r (some e) = record { valid = false; errors = r.errors ++ e.message ∷ [] }

unfoldable pub validate_from : ℕ → List InitPluginSpec → ValidationResult → ValidationResult
unfolding validate_init_plugin
validate_from i [] result = result
validate_from i (p ∷ ps) result =
    validate_from (i + 1) ps (with_error result (validate_init_plugin p i))

unfoldable pub validate_kode : Kode → ValidationResult
unfolding validate_from
validate_kode k = validate_from 0 k.spec.init_plugins (record { valid = true; errors = [] })

unfoldable pub set_validation_condition : ℕ → ValidationResult → List Condition → List Condition
set_validation_condition now result =
    if result.valid
    then set_condition now validated is_true "ValidationSucceeded" "Resource validation succeeded"
    else set_condition now validated is_false "ValidationFailed"
        ("Resource validation failed: " <> join "; " result.errors)
