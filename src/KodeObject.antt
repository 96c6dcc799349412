-- ===== src/KodeObject.antt =====
-- The methods of kode_types.go that talk to the API server. They act on the Kode behind the
-- handlers' pointer, `St.kode`.
pub mod Laws
pub mod Saved
use kode_operator.Prelude.{
  ℕ, String, Bool, true, false, not, Option, none, some, List, ◌&&◌, if◌then◌else◌,
}
use kode_operator.Go.{
  Error, Result, ok, err, wrap, ignore_not_found, ◌>>=◌, ◌>>◌, pure, if_failed, if_err, when,
}
use kode_operator.Condition.{ConditionType, ConditionStatus, Condition}
use kode_operator.Condition
use kode_operator.Api.{Kode, KodeStatus, Phase, Runtime, same_phase, failed}
use kode_operator.Api.Names.{kode_finalizer_name}
use kode_operator.Env.{Env, St, M, Call, patch_status, update, ask, call, get, change}

abbrev pub set_status : (KodeStatus → KodeStatus) → Kode → Kode
set_status f k = record k { status = f k.status }

abbrev pub get_phase : Kode → Phase
get_phase k = k.status.phase

abbrev pub get_runtime : Kode → Option Runtime
get_runtime k = k.status.runtime

abbrev pub get_port : Kode → ℕ
get_port k = k.status.kode_port

abbrev pub set_phase : Phase → M Unit
set_phase p = change (set_status (λ s. record s { phase = p }))

unfoldable pub clear_error : KodeStatus → KodeStatus
clear_error s = record s { last_error = none; last_error_time = none }

abbrev pub get_condition : ConditionType → Kode → Option Condition
get_condition type k = Condition.get_condition type k.status.conditions

abbrev pub delete_condition : ConditionType → M Unit
delete_condition type =
    change
      (set_status (λ s. record s { conditions = Condition.delete_condition type s.conditions }))

module _ (env : Env) where
  -- The function that UpdateStatus hands to RetryOnConflict. The reply to the patch holds the status that was sent, so
  -- reading it into the latest version, which shares the conditions with the Kode, changes nothing of the Kode.
  unfoldable pub try_update_status : M (Option Error)
  try_update_status = do
    k ← get
    found ← ask (λ t. env.get_kode t k.name k.namespace)
    if_failed found (λ e. pure (ignore_not_found e))
        λ latest. do
          let latest' = record latest { status = k.status }
          when
              (not (same_phase k.status.phase latest'.status.phase)
                && not (same_phase latest'.status.phase failed))
              (change (set_status clear_error))
          call (patch_status latest') (λ t. env.patch_kode_status t latest')

  unfoldable pub update_status : M (Option Error)
  update_status = env.retry_on_conflict try_update_status

  unfoldable pub set_condition : ConditionType → ConditionStatus → String → String → M Unit
  set_condition type status reason message = do
    now ← ask env.now
    change (
        set_status (λ s. record s {
          conditions = Condition.set_condition now type status reason message s.conditions;
        }))

  abbrev pub contains_finalizer : Kode → Bool
  contains_finalizer k = env.finalizers.contains k.finalizers kode_finalizer_name

  -- What AddFinalizer and RemoveFinalizer share: an update of the finalizers of the latest version.
  unfoldable pub update_finalizers : (List String → List String) → M (Option Error)
  update_finalizers f = do
    k ← get
    found ← ask (λ t. env.get_kode t k.name k.namespace)
    if_failed found (λ e. pure (ignore_not_found e))
        λ latest. do
          let latest' = record latest { finalizers = f latest.finalizers }
          call (update latest') (λ t. env.update_kode t latest')

  unfoldable pub add_finalizer : M (Option Error)
  add_finalizer = update_finalizers (λ fs. env.finalizers.add fs kode_finalizer_name)

  unfoldable pub remove_finalizer : M (Option Error)
  remove_finalizer = update_finalizers (λ fs. env.finalizers.remove fs kode_finalizer_name)

  unfoldable pub set_runtime : Runtime → M (Option Error)
  set_runtime runtime = do
    change (set_status (λ s. record s { runtime = some runtime }))
    e ← update_status
    if_err e (λ e. pure (some (wrap "failed to update status with runtime" e))) (pure none)

  -- `UpdateUrl`: the Kode in memory itself is sent.
  unfoldable pub update_url : String → M (Option Error)
  update_url url = do
    change (set_status (λ s. record s { kode_url = url }))
    k ← get
    call (patch_status k) (λ t. env.patch_kode_status t k)
