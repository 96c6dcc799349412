-- ===== src/Kode/Deletion.antt =====
-- handleDeletingState and the finalizer.
use kode_operator.Prelude.{
  ℕ, suc, String, Bool, true, false, [], ◌∷◌, ◌≡◌, refl, inl, inr, Bool-cases, false≢true, ◌==◌,
  if◌then◌else◌,
}
use kode_operator.Go.{Error, Result, ok, err, is_not_found, ◌>>=◌, ◌>>◌, if_failed}
use kode_operator.Go.Keeps.{
  Keeps, Keeps-bind_of, Keeps-if, Keeps-then, Yields, Yields-pure, Yields-bind, Yields-bind_of,
  keeps_rules,
}
use kode_operator.Condition.{ConditionType, ConditionStatus}
use kode_operator.Api.{Kode}
use kode_operator.Api.Names.{get_pvc_name}
use kode_operator.Env.{Env, St, M, Call, Trace, EventType, warning, update, ask, get, record_event}
use kode_operator.Env.Frame.{Keeps-get_bind, Keeps-record_event, env_rules}
use kode_operator.KodeObject.{set_condition, update_status}
use kode_operator.KodeObject.Laws.{Keeps-update_status, Keeps-set_condition}
use kode_operator.Cleanup.{CleanupableResource, cleanup}
use kode_operator.Kode.Checks.{skip_pvc, still_there, unless_there, check_resources_deleted}
use kode_operator.Kode.Errors.{handle_reconcile_error}
use kode_operator.Kode.Handlers.Deleting.{
  start_cleanup, next_cycle, finish_deletion, handle_deleting_state,
}
use kode_operator.Kode.Frame.Writes.{Keeps-check_resources_deleted}
use kode_operator.Kode.Frame.Handlers.{Keeps-cleanup}

-- The updates of a Kode itself: in handleDeletingState, the removals of its finalizer.
unfoldable pub updates : Trace → ℕ
updates [] = 0
updates (c ∷ cs) = let rest = updates cs in if is_update c then suc rest else rest
  where
    is_update : Call → Bool
    is_update (update k) = true
    is_update _ = false

abbrev pub found : {A : Type 0} → Result A → Bool
found (ok a) = true
found (err e) = false

-- The answers of checkResourcesDeleted that do not say that the children are gone.
data NotGone : Result Bool → Type 0 where
  still : NotGone (ok false)
  refused : (e : Error) → NotGone (err e)

unless_there-NotGone :
    {A : Type 0} (r : Result A) (m : M (Result Bool))
    → Yields NotGone m
    → Yields NotGone (unless_there (still_there r) m)
unless_there-NotGone (ok a) m y = Yields-pure _ still
unless_there-NotGone (err e) m y = elim (Bool-cases (is_not_found e)) [
  | inl b ↦ rw b y
  | inr b ↦ rw b (Yields-pure _ (refused e))
]

found-NotGone :
    {A : Type 0} (r : Result A) (m : M (Result Bool))
    → found r ≡ true
    → Yields NotGone (unless_there (still_there r) m)
found-NotGone (ok a) m h = Yields-pure _ still
found-NotGone (err e) m h = elim (false≢true h) [ ]

module _ (env : Env) where
  -- The Kode has a claim that is waited for and that is always found.
  abbrev Waits : Kode → Type 0
  Waits k =
      (skip_pvc env k ≡ false)
      × ((t : Trace) → found (env.get_pvc t (get_pvc_name k) k.namespace) ≡ true)

  check_resources_deleted-NotGone :
      (k : Kode) → Waits k → Yields NotGone (check_resources_deleted env k)
  unfolding check_resources_deleted ask
  check_resources_deleted-NotGone k (skip, present) = Yields-bind _ _ (λ a.
      unless_there-NotGone a _ (
        Yields-bind _ _ (λ b. unless_there-NotGone b _ (
          Yields-bind _ _ (λ c. unless_there-NotGone c _ (
            rw skip (
              Yields-bind_of (λ r. found r ≡ true) _ _ (record { at = λ s. present s.calls })
                (λ r h. found-NotGone r _ h))))))))

  module _ (n : ℕ) where
    abbrev Held : St → Type 0
    Held s = Waits s.kode × (updates s.calls ≡ n)

    Held-update_status : Keeps Held (update_status env)
    unfolding skip_pvc get_pvc_name updates
    Held-update_status = Keeps-update_status env {P = Held} (λ k s h. h)

    Held-set_condition :
        (t : ConditionType) (status : ConditionStatus) (reason message : String)
        → Keeps Held (set_condition env t status reason message)
    unfolding skip_pvc get_pvc_name
    Held-set_condition t status reason message =
        Keeps-set_condition env t status reason message (λ f s h. h)

    Held-event : (t : EventType) (reason : String) → Keeps Held (record_event t reason)
    unfolding skip_pvc get_pvc_name updates
    Held-event t reason = Keeps-record_event t reason (λ s h. h)

    Held-cleanup : (c : CleanupableResource) → Keeps Held (cleanup env c)
    unfolding skip_pvc get_pvc_name updates
    Held-cleanup c = Keeps-cleanup env {P = Held} (λ r s h. h) c

    Held-handle_reconcile_error :
        (e : Error) (message : String) → Keeps Held (handle_reconcile_error env e message)
    unfolding handle_reconcile_error skip_pvc get_pvc_name
    Held-handle_reconcile_error e message =
        search (keeps_rules, env_rules, Held-set_condition, Held-update_status) depth 20

    Held-start_cleanup : Keeps Held (start_cleanup env)
    unfolding start_cleanup skip_pvc get_pvc_name
    Held-start_cleanup =
        search
          (
            keeps_rules, env_rules, Held-cleanup, Held-event, Held-update_status,
            Held-handle_reconcile_error,
          )
          depth 20

    Held-next_cycle : Keeps Held (next_cycle env)
    unfolding next_cycle skip_pvc get_pvc_name
    Held-next_cycle = search (keeps_rules, env_rules, Held-event, Held-update_status) depth 20

    Held-answer :
        (k : Kode) (r : Result Bool)
        → NotGone r
        → Keeps Held (
            if_failed r
              (λ e.
                record_event warning "DeletionCheckFailed"
                >> handle_reconcile_error env e "Failed to check child resources deletion")
              (λ b.
                if b
                then finish_deletion env
                else if k.status.deletion_cycle == 0
                then start_cleanup env
                else next_cycle env))
    unfolding if_failed
    Held-answer k (ok false) still = Keeps-if _ _ _ Held-start_cleanup Held-next_cycle
    Held-answer k (ok true) ng = elim ng [ ]
    Held-answer k (err x) (refused e) =
        Keeps-then _ _ (Held-event _ _) (Held-handle_reconcile_error _ _)

    Held-check : Keeps Held (
        get >>= λ kode. check_resources_deleted env kode >>= λ gone.
        if_failed gone
          (λ e.
            record_event warning "DeletionCheckFailed"
            >> handle_reconcile_error env e "Failed to check child resources deletion")
          (λ b.
            if b
            then finish_deletion env
            else if kode.status.deletion_cycle == 0
            then start_cleanup env
            else next_cycle env))
    Held-check = Keeps-get_bind _ (λ s h.
        Keeps-bind_of NotGone _ _ (Keeps-check_resources_deleted env s.kode)
          (check_resources_deleted-NotGone s.kode h.0) (Held-answer s.kode))

    Held-handle_deleting_state : Keeps Held (handle_deleting_state env)
    unfolding handle_deleting_state
    Held-handle_deleting_state =
        search (keeps_rules, Held-set_condition, Held-update_status, Held-check) depth 20

-- While the Kode has a claim of its own that is not ignored, and the API server finds that claim
-- whenever it is asked, handleDeletingState never updates the Kode, so it does not
-- remove the finalizer.
pub handle_deleting_state-waits :
    (env : Env) (s : St)
    → skip_pvc env s.kode ≡ false
    → ((t : Trace) → found (env.get_pvc t (get_pvc_name s.kode) s.kode.namespace) ≡ true)
    → updates (handle_deleting_state env s).1.calls ≡ updates s.calls
handle_deleting_state-waits env s skip present =
    ((Held-handle_deleting_state env (updates s.calls)).at s ((skip, present), refl)).1
