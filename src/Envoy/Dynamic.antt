-- ===== src/Envoy/Dynamic.antt =====
-- The JSON and YAML methods of DynamicValue: pkg/envoy/types.go. The library encoding/json and the
-- function that yaml.v2 hands to UnmarshalYAML are parameters; `A` is what they hold in an interface.
use kode_operator.Prelude.{String, Option, none, some, ◌≡◌, refl, ap, subst}
use kode_operator.Go.{Result, ok, err, Error}

-- `interface{}` is an option: nil holds nothing.
pub record DynamicValue (A : Type 0) : Type 0 where
  pub value : Option A

-- `encoding/json`, for values that are not nil and for texts
pub record Json (A : Type 0) : Type 0 where
  pub marshal : A → Result String
  pub unmarshal : String → Result (Option A)

-- encoding/json reads null as nil, and it reads back what it has written.
record ReadsBack {A : Type 0} (json : Json A) : Type 0 where
  null : json.unmarshal "null" ≡ ok none
  written : (v : A) (text : String) → json.marshal v ≡ ok text → json.unmarshal text ≡ ok (some v)

abbrev text_of : Result String → String
text_of (ok text) = text
text_of (err e) = ""

module _ {A : Type 0} where
  -- The methods change the value behind their receiver: the error and the value that is left.
  abbrev decoded : Result (Option A) → DynamicValue A → Option Error × DynamicValue A
  decoded (err e) d = (some e, d)
  decoded (ok v) d = (none, record { value = v })

  unfoldable pub unmarshal_json : Json A → String → DynamicValue A → Option Error × DynamicValue A
  unmarshal_json json text d = decoded (json.unmarshal text) d

  unfoldable pub unmarshal_yaml : Result (Option A) → DynamicValue A → Option Error × DynamicValue A
  unmarshal_yaml unmarshalled d = decoded unmarshalled d

  unfoldable pub marshal_json : Json A → DynamicValue A → Result String
  marshal_json json d = elim (d.value) [ none ↦ ok "null" | some v ↦ json.marshal v ]

  unfoldable pub marshal_yaml : DynamicValue A → Result (Option A)
  marshal_yaml d = ok d.value

  read-written :
      (json : Json A)
      → ReadsBack json
      → (v : Option A) (text : String)
      → elim v [ none ↦ ok "null" | some a ↦ json.marshal a ] ≡ ok text
      → json.unmarshal text ≡ ok v
  read-written json known (some a) text e = known.written a text e
  read-written json known none text e =
      subst (λ t. json.unmarshal t ≡ ok none) (ap text_of e) known.null

  -- A value that MarshalJSON has written is the value that UnmarshalJSON reads, and the value before
  -- does not matter, if encoding/json reads back what it has written.
  unmarshal_json-marshal_json :
      (json : Json A)
      → ReadsBack json
      → (d before : DynamicValue A) (text : String) → marshal_json json d ≡ ok text
      → unmarshal_json json text before ≡ (none, d)
  unfolding unmarshal_json marshal_json
  unmarshal_json-marshal_json json known d before text e =
      rw (read-written json known d.value text e) refl
