-- ===== src/Condition.antt =====
-- Status conditions: api/v1alpha2/condition.go, and the condition types of pkg/constant/constant.go.
pub mod Laws
use kode_operator.Prelude.{
  ℕ, String, str_eq, Bool, not, Option, none, some, List, [], ◌∷◌, ◌++◌, if◌then◌else◌,
}

pub data ConditionType : Type 0 where
  ready available progressing degraded error configured validated : ConditionType
  http_route_ready https_route_ready : ConditionType

-- `string(conditionType)`
unfoldable pub type_name : ConditionType → String
type_name ready = "Ready"
type_name available = "Available"
type_name progressing = "Progressing"
type_name degraded = "Degraded"
type_name error = "Error"
type_name configured = "Configured"
type_name validated = "Validated"
type_name http_route_ready = "HTTPRouteReady"
type_name https_route_ready = "HTTPSRouteReady"

-- `metav1.ConditionStatus`
pub data ConditionStatus : Type 0 where
  is_true is_false unknown : ConditionStatus

abbrev pub same_status : ConditionStatus → ConditionStatus → Bool
same_status is_true is_true = Bool.true
same_status is_false is_false = Bool.true
same_status unknown unknown = Bool.true
same_status _ _ = Bool.false

-- `metav1.Condition`, as far as this code fills it
pub record Condition : Type 0 where
  pub type : String
  pub status : ConditionStatus
  pub reason : String
  pub message : String
  pub last_transition_time : ℕ

-- The condition that the loop leaves at the place of `old`.
unfoldable pub updated : Condition → Condition → Condition
updated new old = if same_status old.status new.status then old else new

-- The loop over `s.Conditions`, and the append after it.
unfoldable pub upsert : Condition → List Condition → List Condition
unfolding updated
upsert new [] = new ∷ []
upsert new (c ∷ cs) = if str_eq c.type new.type then updated new c ∷ cs else c ∷ upsert new cs

unfoldable pub set_condition :
    ℕ → ConditionType → ConditionStatus → String → String → List Condition → List Condition
unfolding upsert
set_condition now t status reason message = upsert (record {
  type = type_name t;
  status = status;
  reason = reason;
  message = message;
  last_transition_time = now;
})

unfoldable pub find_condition : String → List Condition → Option Condition
find_condition t [] = none
find_condition t (c ∷ cs) = if str_eq c.type t then some c else find_condition t cs

unfoldable pub get_condition : ConditionType → List Condition → Option Condition
unfolding find_condition
get_condition t = find_condition (type_name t)

unfoldable pub remove_condition : String → List Condition → List Condition
remove_condition t [] = []
remove_condition t (c ∷ cs) =
    let rest = remove_condition t cs in if not (str_eq c.type t) then c ∷ rest else rest

unfoldable pub delete_condition : ConditionType → List Condition → List Condition
unfolding remove_condition
delete_condition t = remove_condition (type_name t)
