-- ===== src/EntryPoint/Object.antt =====
-- The methods of entrypoint_types.go. They act on the EntryPoint behind the pointer, `St.entry_point`.
use kode_operator.Prelude.{String, str_eq, Bool, false, not, Option, none, some, List, ◌&&◌}
use kode_operator.Go.{
  Error, Outcome, done, panic, ignore_not_found, ◌>>=◌, ◌>>◌, pure, if_failed, when,
}
use kode_operator.Condition.{ConditionType, ConditionStatus, Condition}
use kode_operator.Condition
use kode_operator.Api.{
  EntryPoint, EntryPointStatus, CrossNamespaceObjectReference, GatewaySpec, Phase, same_phase,
  failed,
}
use kode_operator.Api.Names.{kode_finalizer_name}
use kode_operator.Env.{
  Env, M, patch_entry_point_status, update_entry_point, ask, call, get_entry_point,
  change_entry_point,
}

abbrev pub set_status : (EntryPointStatus → EntryPointStatus) → EntryPoint → EntryPoint
set_status f e = record e { status = f e.status }

abbrev pub get_phase : EntryPoint → Phase
get_phase e = e.status.phase

abbrev pub set_phase : Phase → M Unit
set_phase p = change_entry_point (set_status (λ s. record s { phase = p }))

unfoldable pub clear_error : EntryPointStatus → EntryPointStatus
clear_error s = record s { last_error = none; last_error_time = none }

-- The constant is the one of a Kode.
abbrev pub get_finalizer : EntryPoint → String
get_finalizer e = kode_finalizer_name

abbrev pub set_finalizers : (List String → List String) → EntryPoint → EntryPoint
set_finalizers f e = record e { finalizers = f e.finalizers }

module _ (env : Env) where
  -- The function that UpdateStatus hands to RetryOnConflict.
  -- The reply to the patch holds the status that was sent, as for a Kode.
  unfoldable pub try_update_status : M (Option Error)
  try_update_status = do
    e ← get_entry_point
    found ← ask (λ t. env.get_entry_point t e.name e.namespace)
    if_failed found (λ x. pure (ignore_not_found x))
        λ latest. do
          let latest' = record latest { status = e.status }
          when
              (not (same_phase e.status.phase latest'.status.phase)
                && not (same_phase latest'.status.phase failed))
              (change_entry_point (set_status clear_error))
          call (patch_entry_point_status latest') (λ t. env.patch_entry_point_status t latest')

  unfoldable pub update_status : M (Option Error)
  update_status = env.retry_on_conflict try_update_status

  unfoldable pub set_condition : ConditionType → ConditionStatus → String → String → M Unit
  set_condition type status reason message = do
    now ← ask env.now
    change_entry_point (
        set_status (λ s. record s {
          conditions = Condition.set_condition now type status reason message s.conditions;
        }))

  -- `c.Update(ctx, e)`: the object that the server sends back is read into `e`.
  unfoldable pub update : M (Option Error)
  update = do
    e ← get_entry_point
    reply ← call (update_entry_point e) (λ t. env.update_entry_point t e)
    if_failed reply (λ x. pure (some x)) (λ e'. change_entry_point (λ e. e') >> pure none)

  unfoldable pub add_finalizer : M (Option Error)
  add_finalizer = do
    change_entry_point (λ e. set_finalizers (λ fs. env.finalizers.add fs (get_finalizer e)) e)
    update

  unfoldable pub remove_finalizer : M (Option Error)
  remove_finalizer = do
    change_entry_point (λ e. set_finalizers (λ fs. env.finalizers.remove fs (get_finalizer e)) e)
    update

abbrev pub get_condition : ConditionType → EntryPoint → Option Condition
get_condition type e = Condition.get_condition type e.status.conditions

abbrev pub delete_condition : ConditionType → M Unit
delete_condition type =
    change_entry_point
      (set_status (λ s. record s { conditions = Condition.delete_condition type s.conditions }))

unfoldable pub is_subdomain_routing : EntryPoint → Bool
is_subdomain_routing e = str_eq e.spec.routing_type "subdomain"

unfoldable pub is_path_routing : EntryPoint → Bool
is_path_routing e = str_eq e.spec.routing_type "path"

-- `ExistingGatewayRef.Name != ""`: a nil reference panics.
unfoldable pub has_name : Option CrossNamespaceObjectReference → Outcome Bool
has_name none = panic
has_name (some ref) = done (not (str_eq ref.name ""))

unfoldable pub has_existing_gateway : EntryPoint → Outcome Bool
unfolding has_name
has_existing_gateway e = go e.spec.gateway_spec
  where
    go : Option GatewaySpec → Outcome Bool
    go none = done false
    go (some g) = has_name g.existing_gateway_ref
