-- ===== src/Kode/Frame/Handlers.antt =====
-- The handlers of internal/controllers/kode/handlers.go that neither delete a child resource nor set
-- the phase keep every calm predicate.
use kode_operator.Prelude.{String, Bool, true, none, List, [], ◌∷◌}
use kode_operator.Go.{Error, is_not_found}
use kode_operator.Go.Keeps.{
  Keeps, Keeps-bind, Keeps-bind_of, Keeps-then, Keeps-if, Keeps-if_err, Keeps-pure, keeps_rules,
}
use kode_operator.Condition.{ConditionType, ConditionStatus}
use kode_operator.Api.{Kode, Phase, phase_unknown}
use kode_operator.Objects.{Resource}
use kode_operator.Env.{Env, St, EventType, delete, update, note, record_event}
use kode_operator.Env.Frame.{Keeps-change, Keeps-get, env_rules}
use kode_operator.KodeObject.{
  set_status, clear_error, set_condition, update_status, contains_finalizer,
}
use kode_operator.KodeObject.Laws.{Keeps-remove_finalizer}
use kode_operator.Cleanup.{CleanupableResource, delete_resource, cleanup_from, cleanup}
use kode_operator.Kode.Config.{KodeResourceConfig}
use kode_operator.Kode.Changes.{Changes, detect_changes, apply_configuration}
use kode_operator.Kode.Errors.{fetch_templates_with_retry, handle_reconcile_error}
use kode_operator.Kode.Frame.{Calm, to_port, to_generation, to_retry, to_cycle, to_error}
use kode_operator.Kode.Frame.Reads.{
  Stable-event, Stable-update_status, Stable-set_condition, Stable-fetch_templates_with_retry,
  Stable-handle_reconcile_error,
}
use kode_operator.Kode.Frame.Writes.{
  Keeps-check_resources_ready, Keeps-check_resources_deleted, Stable-detect_changes,
  Stable-apply_configuration, Keeps-validate_configuration,
}
use kode_operator.Kode.Handlers.Create.{
  handle_pending_state, handle_configuring_state, keep_provisioning, finish_provisioning,
  handle_provisioning_state,
}
use kode_operator.Kode.Handlers.Active.{
  ensure_condition, ensure_healthy, stay_active, leave_active, start_update, check_health,
  handle_active_state,
}
use kode_operator.Kode.Handlers.Updating.{
  nothing_to_update, keep_updating, finish_update, apply_update, handle_updating_state,
}
use kode_operator.Kode.Handlers.Deleting.{
  start_cleanup, next_cycle, finish_deletion, handle_deleting_state,
}
use kode_operator.Kode.Handlers.Recovery.{
  determine_recovery_phase, give_up, attempt_recovery, handle_failed_state,
  determine_resource_state, settle, handle_unknown_state,
}
use kode_operator.Kode.Phases.Handlers.{Moves-determine_resource_state}
use kode_operator.Kode.Phases.{Moves, along, resolve_pending}

module _ (env : Env) {P : St → Type 0}
    (deleting : (r : Resource) (s : St) → P s → P (note (delete r) s)) where
  Keeps-delete_resource : (r : Resource) → Keeps P (delete_resource env r)
  unfolding delete_resource
  Keeps-delete_resource r = search (keeps_rules, env_rules, deleting) depth 20

  Keeps-cleanup_from :
      (p : Resource → Bool) (b : Bool) (rs : List Resource) → Keeps P (cleanup_from env p b rs)
  unfolding cleanup_from
  Keeps-cleanup_from p b [] = search keeps_rules
  Keeps-cleanup_from p b (r ∷ rs) =
      Keeps-if (p r) _ _
        (Keeps-bind _ _ (Keeps-delete_resource r) (λ e.
          Keeps-if_err e _ _
            (λ x. Keeps-if (is_not_found x) _ _ (Keeps-cleanup_from p b rs) (Keeps-pure _))
            (Keeps-cleanup_from p true rs)))
        (Keeps-cleanup_from p b rs)

  pub Keeps-cleanup : (c : CleanupableResource) → Keeps P (cleanup env c)
  unfolding cleanup
  Keeps-cleanup c = search (keeps_rules, Keeps-cleanup_from) depth 20

module _ (env : Env) {P : St → Type 0} (calm : Calm P) where
  pub Calm-set_condition :
      (t : ConditionType) (status : ConditionStatus) (reason message : String)
      → Keeps P (set_condition env t status reason message)
  Calm-set_condition = Stable-set_condition env calm.stable

  pub Calm-event : (t : EventType) (reason : String) → Keeps P (record_event t reason)
  Calm-event = Stable-event env calm.stable

  pub Calm-update_status : Keeps P (update_status env)
  Calm-update_status = Stable-update_status env calm.stable

  pub Calm-fetch_templates : Keeps P (fetch_templates_with_retry env)
  Calm-fetch_templates = Stable-fetch_templates_with_retry env calm.stable

  pub Calm-error : (e : Error) (message : String) → Keeps P (handle_reconcile_error env e message)
  Calm-error = Stable-handle_reconcile_error env calm.stable

  pub Calm-changes : (c : KodeResourceConfig) → Keeps P (detect_changes env c)
  Calm-changes = Stable-detect_changes env calm.stable

  pub Calm-apply :
      (c : KodeResourceConfig) (changes : Changes) → Keeps P (apply_configuration env c changes)
  Calm-apply = Stable-apply_configuration env calm.stable

  ruleset parts = (
    keeps_rules, env_rules, Calm-set_condition, Calm-event, Calm-update_status,
    Calm-fetch_templates, Calm-error, Calm-changes, Calm-apply, Keeps-check_resources_ready,
    Keeps-check_resources_deleted, Keeps-validate_configuration,
  )

  pub Calm-handle_pending_state : Keeps P (handle_pending_state env)
  unfolding handle_pending_state
  Calm-handle_pending_state = search parts depth 20

  pub Calm-handle_configuring_state : Keeps P (handle_configuring_state env)
  unfolding handle_configuring_state
  Calm-handle_configuring_state = search parts depth 40

  pub Calm-handle_provisioning_state : Keeps P (handle_provisioning_state env)
  unfolding handle_provisioning_state keep_provisioning finish_provisioning
  Calm-handle_provisioning_state = search (parts, calm.counting (to_port _)) depth 40

  pub Calm-ensure_condition :
      (t : ConditionType) (status : ConditionStatus) (reason message : String)
      → Keeps P (ensure_condition env t status reason message)
  unfolding ensure_condition
  Calm-ensure_condition t status reason message = search parts depth 20

  pub Calm-ensure_healthy : Keeps P (ensure_healthy env)
  unfolding ensure_healthy
  Calm-ensure_healthy = search (parts, Calm-ensure_condition) depth 20

  pub Calm-handle_active_state : Keeps P (handle_active_state env)
  unfolding handle_active_state check_health stay_active leave_active start_update
  Calm-handle_active_state = search (parts, Calm-ensure_healthy, calm.counting (to_port _)) depth 40

  pub Calm-apply_update :
      (c : KodeResourceConfig) (changes : Changes) → Keeps P (apply_update env c changes)
  unfolding apply_update keep_updating finish_update
  Calm-apply_update c changes =
      search (parts, calm.counting (to_port _), calm.counting (to_generation _)) depth 40

  pub Calm-handle_updating_state : Keeps P (handle_updating_state env)
  unfolding handle_updating_state nothing_to_update
  Calm-handle_updating_state =
      search (parts, Calm-apply_update, calm.counting (to_generation _)) depth 40

  pub Calm-determine_recovery_phase : Keeps P (determine_recovery_phase env)
  unfolding determine_recovery_phase
  Calm-determine_recovery_phase = search parts depth 20

  pub Calm-handle_failed_state : Keeps P (handle_failed_state env)
  unfolding handle_failed_state give_up attempt_recovery clear_error
  Calm-handle_failed_state =
      search
        (
          parts,
          Calm-determine_recovery_phase,
          calm.counting (to_retry _),
          calm.stable.editing (to_error none none),
        )
        depth 40

  pub Calm-determine_resource_state : Keeps P (determine_resource_state env)
  unfolding determine_resource_state
  Calm-determine_resource_state = search parts depth 20

  Calm-start_cleanup :
      ((r : Resource) (s : St) → P s → P (note (delete r) s)) → Keeps P (start_cleanup env)
  unfolding start_cleanup
  Calm-start_cleanup deleting =
      search (parts, Keeps-cleanup env deleting, calm.counting (to_cycle _)) depth 40

  Calm-next_cycle : Keeps P (next_cycle env)
  unfolding next_cycle
  Calm-next_cycle = search (parts, calm.counting (to_cycle _)) depth 40

  Calm-finish_deletion :
      ((k : Kode) (s : St) → P s → P (note (update k) s)) → Keeps P (finish_deletion env)
  unfolding finish_deletion
  Calm-finish_deletion updating = Keeps-bind _ _ Keeps-get (λ k.
      Keeps-if (contains_finalizer env k) _ _
        (Keeps-bind _ _ (Keeps-remove_finalizer env updating) (λ e. search parts depth 20))
        (Keeps-pure _))

  Calm-after_check :
      Keeps P (start_cleanup env)
      → Keeps P (finish_deletion env)
      → Keeps P (handle_deleting_state env)
  unfolding handle_deleting_state
  Calm-after_check start finish = search (parts, Calm-next_cycle) depth 40

  -- handleDeletingState, for a predicate that the deletions and the release of the finalizer keep.
  pub Calm-handle_deleting_state :
      ((r : Resource) (s : St) → P s → P (note (delete r) s))
      → ((k : Kode) (s : St) → P s → P (note (update k) s))
      → Keeps P (handle_deleting_state env)
  Calm-handle_deleting_state deleting updating =
      Calm-after_check (Calm-start_cleanup deleting) (Calm-finish_deletion updating)

  module _
      (phases : (q : Phase) (s : St)
        → Moves phase_unknown q
        → P s
        → P (record s { kode = set_status (λ x. record x { phase = q }) s.kode })) where
    Calm-settle :
        (q : Phase) (reason : String) → Moves phase_unknown q → Keeps P (settle env q reason)
    unfolding settle
    Calm-settle q reason m =
        Keeps-then _ _ (Keeps-change _ (λ s h. phases q s m h)) (search parts depth 20)

    -- handleUnknownState, for a predicate that its changes of the phase keep.
    pub Calm-handle_unknown_state : Keeps P (handle_unknown_state env)
    unfolding handle_unknown_state
    Calm-handle_unknown_state =
        search
          (
            parts,
            Keeps-bind_of (Moves phase_unknown) _ _ Calm-determine_resource_state
                (Moves-determine_resource_state env),
            Calm-settle,
            along,
            resolve_pending,
          )
          depth 40
