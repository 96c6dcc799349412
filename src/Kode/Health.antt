-- ===== src/Kode/Health.antt =====
-- The conditions that handleActiveState keeps up.
use kode_operator.Prelude.{
  String, str_eq, true, false, none, some, List, [], ◌∷◌, ◌≡◌, refl, inl, inr, Bool-cases, ap, ◌∙◌,
}
use kode_operator.Go.{done, ◌>>=◌, ◌>>◌, pure, deref, when}
use kode_operator.Condition.{
  Condition, ConditionType, ConditionStatus, same_status, is_true, is_false, unknown, type_name,
  upsert, updated, find_condition, get_condition,
}
use kode_operator.Condition
use kode_operator.Env.{Env, St, get, ask, change}
use kode_operator.KodeObject.{set_status, set_condition}
use kode_operator.Kode.Handlers.Active.{ensure_condition}

same_status_refl : (x : ConditionStatus) → same_status x x ≡ true
same_status_refl is_true = refl
same_status_refl is_false = refl
same_status_refl unknown = refl

status_of : {x y : Condition} → some x ≡ some y → x.status ≡ y.status
status_of {x} e = ap (λ o. elim o [ none ↦ x.status | some y ↦ y.status ]) e

-- A condition of an equal status stays as it is.
upsert-same :
    (new c : Condition) (cs : List Condition)
    → find_condition new.type cs ≡ some c
    → c.status ≡ new.status
    → upsert new cs ≡ cs
unfolding upsert updated find_condition
upsert-same new c [] h e = cc
upsert-same new c (x ∷ xs) h e = elim (Bool-cases (str_eq x.type new.type)) [
  | inl b ↦ rw (b, updated, status_of (rw b at h) ∙ e, same_status_refl) refl
  | inr b ↦ rw b (ap (λ l. x ∷ l) (upsert-same new c xs (rw b at h) e))
]

-- If the condition has the wanted status and another reason than the wanted one, the block of
-- handleActiveState reports a change and leaves the Kode as it was.
pub ensure_condition-stale :
    (env : Env) (t : ConditionType) (status : ConditionStatus) (reason message : String) (s : St)
    (c : Condition)
    → get_condition t s.kode.status.conditions ≡ some c
    → c.status ≡ status
    → str_eq c.reason reason ≡ false
    → ensure_condition env t status reason message s ≡ (done true, s)
unfolding ensure_condition ◌>>=◌ ◌>>◌ get deref pure when set_condition ask change get_condition
    Condition.set_condition
ensure_condition-stale env t status reason message s c h e n =
    rw (h, e, same_status_refl, n)
      (ap
        (λ cs.
          (done true, record s { kode = set_status (λ x. record x { conditions = cs }) s.kode }))
        (upsert-same
          (record {
            type = type_name t;
            status = status;
            reason = reason;
            message = message;
            last_transition_time = env.now s.calls;
          })
          c s.kode.status.conditions h e))
