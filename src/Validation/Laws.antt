-- ===== src/Validation/Laws.antt =====
-- What the validation of a Kode accepts.
use kode_operator.Prelude.{
  ℕ, ◌+◌, str_eq, true, not, List, [], ◌∷◌, ◌++◌, ◌&&◌, ◌≡◌, ◌==◌, ◌∙◌, inl, inr, Bool-cases,
  length, if◌then◌else◌, arith,
}
use kode_operator.Api.{Kode, InitPluginSpec}
use kode_operator.Validation.{
  ValidationResult, with_error, validate_init_plugin, validate_from, validate_kode,
}

-- The plugins without an image.
unfoldable pub missing_images : List InitPluginSpec → ℕ
missing_images [] = 0
missing_images (p ∷ ps) =
    let rest = missing_images ps in if str_eq p.image "" then rest + 1 else rest

length-++ : {A : Type 0} (xs ys : List A) → length (xs ++ ys) ≡ length xs + length ys
length-++ [] ys = omega arith
length-++ (x ∷ xs) ys = omega (arith, length-++ xs ys)

errors-with_error :
    (r : ValidationResult) (p : InitPluginSpec) (i : ℕ)
    → length (with_error r (validate_init_plugin p i)).errors
      ≡ length r.errors + (if str_eq p.image "" then 1 else 0)
unfolding validate_init_plugin
errors-with_error r p i = elim (Bool-cases (str_eq p.image "")) [
  | inl h ↦ rw h (length-++ r.errors _)
  | inr h ↦ rw h (omega arith)
]

valid-with_error :
    (r : ValidationResult) (p : InitPluginSpec) (i : ℕ)
    → (with_error r (validate_init_plugin p i)).valid ≡ (r.valid && not (str_eq p.image ""))
unfolding validate_init_plugin
valid-with_error r p i = elim (Bool-cases (str_eq p.image "")) [
  | inl h ↦ rw h (ground arith)
  | inr h ↦ rw h (ground arith)
]

validate_from-errors :
    (i : ℕ) (ps : List InitPluginSpec) (r : ValidationResult)
    → length (validate_from i ps r).errors ≡ length r.errors + missing_images ps
unfolding validate_from missing_images
validate_from-errors i [] r = omega arith
validate_from-errors i (p ∷ ps) r =
    validate_from-errors (i + 1) ps (with_error r (validate_init_plugin p i))
    ∙ ground (arith, errors-with_error r p i)

validate_from-valid :
    (i : ℕ) (ps : List InitPluginSpec) (r : ValidationResult)
    → (validate_from i ps r).valid ≡ (r.valid && (missing_images ps == 0))
unfolding validate_from missing_images
validate_from-valid i [] r = ground arith
validate_from-valid i (p ∷ ps) r =
    validate_from-valid (i + 1) ps (with_error r (validate_init_plugin p i))
    ∙ ground (arith, valid-with_error r p i)

-- Validating a Kode reports one error for each init plugin without an image, and finds the Kode
-- valid exactly if there is no such plugin.
pub validate_kode-images :
    (k : Kode)
    → (length (validate_kode k).errors ≡ missing_images k.spec.init_plugins)
      × ((validate_kode k).valid ≡ (missing_images k.spec.init_plugins == 0))
unfolding validate_kode
validate_kode-images k = (
  omega (arith, validate_from-errors 0 k.spec.init_plugins (record { valid = true; errors = [] })),
  validate_from-valid 0 k.spec.init_plugins (record { valid = true; errors = [] }),
)
