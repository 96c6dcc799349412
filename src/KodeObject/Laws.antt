-- ===== src/KodeObject/Laws.antt =====
-- What the methods of a Kode change of the Kode in memory.
use kode_operator.Prelude.{◌≡◌, refl, true, List, String}
use kode_operator.Go.{when}
use kode_operator.Go.Keeps.{Keeps, Keeps-bind, keeps_rules}
use kode_operator.Api.{Kode, Phase, same_phase, pending}
use kode_operator.Condition.{Condition, ConditionType, ConditionStatus}
use kode_operator.Env.{Env, St, patch_status, update, note}
use kode_operator.Env.Frame.{env_rules, Keeps-retry, Keeps-ask, Keeps-change}
use kode_operator.KodeObject.{
  try_update_status, update_status, update_finalizers, add_finalizer, remove_finalizer,
  set_condition,
}

pub same_phase_refl : (p : Phase) → same_phase p p ≡ true
unfolding same_phase
same_phase_refl pending = refl
same_phase_refl _ = refl

-- A Kode with its list of conditions changed.
abbrev pub with_conditions : (List Condition → List Condition) → Kode → Kode
with_conditions f k = record k { status = record (k.status) { conditions = f k.status.conditions } }

module _ (env : Env) {P : St → Type 0} where
  Keeps-try_update_status :
      ((k : Kode) (s : St) → P s → P (note (patch_status k) s)) → Keeps P (try_update_status env)
  unfolding try_update_status when
  Keeps-try_update_status patches = simp same_phase_refl (search (keeps_rules, env_rules) depth 20)

  pub Keeps-update_status :
      ((k : Kode) (s : St) → P s → P (note (patch_status k) s)) → Keeps P (update_status env)
  unfolding update_status
  Keeps-update_status patches = Keeps-retry env _ (Keeps-try_update_status patches)

  pub Keeps-update_finalizers :
      (f : List String → List String)
      → ((k : Kode) (s : St) → P s → P (note (update k) s))
      → Keeps P (update_finalizers env f)
  unfolding update_finalizers
  Keeps-update_finalizers f updates = search (keeps_rules, env_rules) depth 20

  pub Keeps-add_finalizer :
      ((k : Kode) (s : St) → P s → P (note (update k) s)) → Keeps P (add_finalizer env)
  unfolding add_finalizer
  Keeps-add_finalizer updates = Keeps-update_finalizers _ updates

  pub Keeps-remove_finalizer :
      ((k : Kode) (s : St) → P s → P (note (update k) s)) → Keeps P (remove_finalizer env)
  unfolding remove_finalizer
  Keeps-remove_finalizer updates = Keeps-update_finalizers _ updates

  pub Keeps-set_condition :
      (t : ConditionType) (status : ConditionStatus) (reason message : String)
      → ((f : List Condition → List Condition) (s : St)
          → P s
          → P (record s { kode = with_conditions f s.kode }))
      → Keeps P (set_condition env t status reason message)
  unfolding set_condition
  Keeps-set_condition t status reason message h =
      Keeps-bind _ _ (Keeps-ask _) (λ now. Keeps-change _ (h _))

-- UpdateStatus leaves the Kode in memory as it is, its last error included, whatever the API server
-- answers and however often it is tried again.
pub update_status-same : (env : Env) (s : St) → (update_status env s).1.kode ≡ s.kode
update_status-same env s =
    (Keeps-update_status env {P = λ t. t.kode ≡ s.kode} (λ k t h. h)).at s refl
