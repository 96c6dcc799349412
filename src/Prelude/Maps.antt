-- ===== src/Prelude/Maps.antt =====
-- `map[string]V` as an association list whose first entry for a key counts.
use Prim.Native.String.{String}
use mathlib.Core.Path.{◌≡◌, refl}
use mathlib.Core.Option.{Option, none, some}
use mathlib.Core.List.{List, [], ◌∷◌}
use native.Mathlib.Omega.{arith}
use kode_operator.Prelude.Tests.{str_eq, str_eq_iff, if◌then◌else◌}

module _ {ℓ} {V : Type ℓ} where
  -- `m[key] = value`
  unfoldable pub insert : String → V → List (String × V) → List (String × V)
  insert key value [] = (key, value) ∷ []
  insert key value ((k, v) ∷ rest) =
      if str_eq k key then (key, value) ∷ rest else (k, v) ∷ insert key value rest

  -- `m[key]`
  unfoldable pub lookup : String → List (String × V) → Option V
  lookup key [] = none
  lookup key ((k, v) ∷ rest) = if str_eq k key then some v else lookup key rest

  pub lookup-insert :
      (key other : String) (value : V) (m : List (String × V))
      → lookup other (insert key value m)
        ≡ (if str_eq key other then some value else lookup other m)
  unfolding insert lookup
  lookup-insert key other value [] = refl
  lookup-insert key other value ((k, v) ∷ rest) = ground (
    arith,
    lookup-insert key other value rest,
    str_eq_iff key other,
    str_eq_iff k key,
    str_eq_iff k other,
  )
