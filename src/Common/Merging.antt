-- ===== src/Common/Merging.antt =====
-- The merge of labels.
use kode_operator.Prelude.{
  String, str_eq, str_eq_iff, lookup, insert, lookup-insert, Option, none, some, List, [], ◌∷◌, ◌≡◌,
  refl, inl, inr, Bool-cases,
}
use kode_operator.Objects.{Labels}
use kode_operator.Common.{put_all, merge_from, merge_labels}

-- No key stands twice, as in a map of Go.
abbrev pub IsMap : Labels → Type 0
IsMap [] = Unit
IsMap ((k, v) ∷ rest) = (lookup k rest ≡ none) × IsMap rest

abbrev pub AllMaps : List Labels → Type 0
AllMaps [] = Unit
AllMaps (m ∷ ms) = IsMap m × AllMaps ms

abbrev newest : Option String → Option String → Option String
newest none old = old
newest (some v) old = some v

-- The value of a key in the last of the maps that has it, or `old`.
abbrev pub last_value : String → List Labels → Option String → Option String
last_value key [] old = old
last_value key (m ∷ ms) old = last_value key ms (newest (lookup key m) old)

lookup-put_all :
    (key : String) (m result : Labels)
    → IsMap m
    → lookup key (put_all m result) ≡ newest (lookup key m) (lookup key result)
unfolding put_all lookup
lookup-put_all key [] result h = refl
lookup-put_all key ((k, v) ∷ rest) result (fresh, h) = elim (Bool-cases (str_eq k key)) [
  | inl b ↦
      let e : k ≡ key = (str_eq_iff k key).0 b in
      let fresh' : lookup key rest ≡ none = rw (← e) fresh in
      rw (lookup-put_all key rest (insert k v result) h, lookup-insert, b, fresh') refl
  | inr b ↦ rw (lookup-put_all key rest (insert k v result) h, lookup-insert, b) refl
]

lookup-merge_from :
    (key : String) (ms : List Labels) (result : Labels)
    → AllMaps ms
    → lookup key (merge_from ms result) ≡ last_value key ms (lookup key result)
unfolding merge_from
lookup-merge_from key [] result h = refl
lookup-merge_from key (m ∷ ms) result (h, hs) =
    rw (lookup-merge_from key ms (put_all m result) hs, lookup-put_all key m result h) refl

-- MergeLabels gives a key the value that it has in the last of the maps that has it, and no value if none has it.
pub lookup-merge_labels :
    (key : String) (ms : List Labels)
    → AllMaps ms
    → lookup key (merge_labels ms) ≡ last_value key ms none
unfolding merge_labels lookup
lookup-merge_labels key ms h = lookup-merge_from key ms [] h
