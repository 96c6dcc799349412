-- ===== src/Condition/Laws.antt =====
-- The list of conditions behaves as a map with one entry for each type.
use kode_operator.Prelude.{
  ℕ, suc, ◌≤◌, String, str_eq, str_eq_iff, ◌≡◌, ◌≢◌, refl, sym, ap, ◌∙◌, Bool, true, false,
  false≢true, Option, ◌&&◌, ◌==◌, none, some, List, [], ◌∷◌, if◌then◌else◌, Bool-cases, inl, inr,
  arith,
}
use kode_operator.Condition.{
  Condition, ConditionType, ConditionStatus, is_true, is_false, unknown, same_status, type_name,
  updated, upsert, set_condition, find_condition, get_condition, remove_condition, delete_condition,
}

type-updated :
    (new old : Condition) → str_eq old.type new.type ≡ true → (updated new old).type ≡ new.type
unfolding updated
type-updated new old e = ground (arith, str_eq_iff old.type new.type)

-- The entry that `upsert new` leaves where `found` was.
unfoldable pub merged : Condition → Option Condition → Condition
merged new none = new
merged new (some old) = updated new old

pub find_condition-upsert :
    (t : String) (new : Condition) (cs : List Condition)
    → find_condition t (upsert new cs)
      ≡ (if str_eq new.type t then some (merged new (find_condition t cs)) else find_condition t cs)
unfolding find_condition upsert merged
find_condition-upsert t new [] = ground arith
find_condition-upsert t new (c ∷ cs) = elim (Bool-cases (str_eq c.type new.type)) [
  | inl e ↦ ground (
    arith,
    type-updated new c e,
    str_eq_iff c.type new.type,
    str_eq_iff c.type t,
    str_eq_iff new.type t,
  )
  | inr n ↦ ground (
    arith,
    str_eq_iff c.type new.type,
    str_eq_iff c.type t,
    str_eq_iff new.type t,
    find_condition-upsert t new cs,
  )
]

-- How many conditions have a type.
unfoldable pub occurrences : String → List Condition → ℕ
occurrences t [] = 0
occurrences t (c ∷ cs) = let rest = occurrences t cs in if str_eq c.type t then suc rest else rest

occurrences-upsert :
    (t : String) (new : Condition) (cs : List Condition)
    → let n = occurrences t cs in
      occurrences t (upsert new cs) ≡ (if str_eq new.type t && (n == 0) then 1 else n)
unfolding occurrences upsert
occurrences-upsert t new [] = ground arith
occurrences-upsert t new (c ∷ cs) = elim (Bool-cases (str_eq c.type new.type)) [
  | inl e ↦
      rw e (ground (arith, type-updated new c e, str_eq_iff c.type new.type, str_eq_iff c.type t))
  | inr n ↦ rw n (
      ground (
        arith,
        str_eq_iff c.type new.type,
        str_eq_iff c.type t,
        str_eq_iff new.type t,
        occurrences-upsert t new cs,
      ))
]

-- No type occurs twice.
pub record IsUnique (cs : List Condition) : Type 0 where
  pub once : (t : String) → occurrences t cs ≤ 1

same_status-true : (a b : ConditionStatus) → same_status a b ≡ true → a ≡ b
same_status-true is_true is_true e = refl
same_status-true is_false is_false e = refl
same_status-true unknown unknown e = refl
same_status-true is_true is_false e = absurd (cc e)
same_status-true is_true unknown e = absurd (cc e)
same_status-true is_false is_true e = absurd (cc e)
same_status-true is_false unknown e = absurd (cc e)
same_status-true unknown is_true e = absurd (cc e)
same_status-true unknown is_false e = absurd (cc e)

same_status_refl : (a : ConditionStatus) → same_status a a ≡ true
same_status_refl is_true = refl
same_status_refl is_false = refl
same_status_refl unknown = refl

-- How the entry of a type changes when `new` is set, before and after. The first argument says whether the type is
-- that of `new`.
pub data Entry (new : Condition) : Bool → Option Condition → Option Condition → Type 0 where
  other : (before : Option Condition) → Entry new false before before
  added : Entry new true none (some new)
  kept : (old : Condition) → old.status ≡ new.status → Entry new true (some old) (some old)
  replaced : (old : Condition) → old.status ≢ new.status → Entry new true (some old) (some new)

Entry-merged :
    (new : Condition) (b : Bool) (before : Option Condition)
    → Entry new b before (if b then some (merged new before) else before)
unfolding merged updated
Entry-merged new false before = other before
Entry-merged new true none = added
Entry-merged new true (some old) = elim (Bool-cases (same_status old.status new.status)) [
  | inl e ↦ rw e (kept old (same_status-true _ _ e))
  | inr e ↦ rw e (
      replaced old (λ q.
        false≢true (sym e ∙ ap (λ x. same_status x new.status) q ∙ same_status_refl new.status)))
]

-- SetCondition, as a map: the entry of its own type becomes the new condition, except that an
-- entry which has the status already stays as it is; the entries of all other types are the same.
pub get_condition-set_condition :
    (now : ℕ) (t u : ConditionType) (status : ConditionStatus) (reason message : String)
    (cs : List Condition)
    → Entry
        (record {
          type = type_name t;
          status = status;
          reason = reason;
          message = message;
          last_transition_time = now;
        })
        (str_eq (type_name t) (type_name u))
        (get_condition u cs)
        (get_condition u (set_condition now t status reason message cs))
unfolding get_condition set_condition
get_condition-set_condition now t u status reason message cs =
    rw
      (find_condition-upsert (type_name u)
        (record {
          type = type_name t;
          status = status;
          reason = reason;
          message = message;
          last_transition_time = now;
        })
        cs)
      (Entry-merged _ _ (find_condition (type_name u) cs))

-- SetCondition keeps a list in which no type occurs twice.
pub set_condition-IsUnique :
    (now : ℕ) (t : ConditionType) (status : ConditionStatus) (reason message : String)
    (cs : List Condition)
    → IsUnique cs
    → IsUnique (set_condition now t status reason message cs)
unfolding set_condition
set_condition-IsUnique now t status reason message cs h = record {
  once = λ u. ground (
    arith,
    h.once u,
    occurrences-upsert u
        (record {
          type = type_name t;
          status = status;
          reason = reason;
          message = message;
          last_transition_time = now;
        })
        cs,
  );
}

find_condition-remove_condition :
    (t u : String) (cs : List Condition)
    → find_condition u (remove_condition t cs) ≡ (if str_eq t u then none else find_condition u cs)
unfolding find_condition remove_condition
find_condition-remove_condition t u [] = ground arith
find_condition-remove_condition t u (c ∷ cs) = ground (
  arith,
  str_eq_iff c.type t,
  str_eq_iff c.type u,
  str_eq_iff t u,
  find_condition-remove_condition t u cs,
)

occurrences-remove_condition :
    (t u : String) (cs : List Condition) → occurrences u (remove_condition t cs) ≤ occurrences u cs
unfolding occurrences remove_condition
occurrences-remove_condition t u [] = ground arith
occurrences-remove_condition t u (c ∷ cs) = ground (arith, occurrences-remove_condition t u cs)

-- DeleteCondition removes every condition of its type and leaves those of the other types.
get_condition-delete_condition :
    (t u : ConditionType) (cs : List Condition)
    → get_condition u (delete_condition t cs)
      ≡ (if str_eq (type_name t) (type_name u) then none else get_condition u cs)
unfolding get_condition delete_condition
get_condition-delete_condition t u cs =
    find_condition-remove_condition (type_name t) (type_name u) cs

-- DeleteCondition keeps a list in which no type occurs twice.
delete_condition-IsUnique :
    (t : ConditionType) (cs : List Condition) → IsUnique cs → IsUnique (delete_condition t cs)
unfolding delete_condition
delete_condition-IsUnique t cs h = record {
  once = λ v. omega (arith, h.once v, occurrences-remove_condition (type_name t) v cs);
}
