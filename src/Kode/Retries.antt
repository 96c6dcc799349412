-- ===== src/Kode/Retries.antt =====
-- The retry count of handleFailedState.
use kode_operator.Prelude.{ℕ, ◌+◌, String, ◌≡◌, refl, leb, inl, inr, Bool-cases, if◌then◌else◌}
use kode_operator.Go.{◌>>=◌, ◌>>◌}
use kode_operator.Go.Keeps.{Keeps, keeps_rules}
use kode_operator.Condition.{ConditionType, ConditionStatus}
use kode_operator.Api.{Kode}
use kode_operator.Env.{Env, St, M, change, get, EventType, record_event}
use kode_operator.Env.Frame.{env_rules}
use kode_operator.KodeObject.{clear_error, set_condition, update_status}
use kode_operator.Kode.Errors.{fetch_templates_with_retry}
use kode_operator.Kode.Ensure.{set_credentials}
use kode_operator.Kode.Frame.{
  Stable, Edit, edit, to_runtime, to_credentials, to_error, to_condition,
}
use kode_operator.Kode.Frame.Reads.{
  Stable-event, Stable-update_status, Stable-set_condition, Stable-fetch_templates_with_retry,
}
use kode_operator.Kode.Frame.Writes.{Keeps-check_resources_ready}
use kode_operator.Kode.Handlers.Recovery.{
  max_retries, determine_recovery_phase, give_up, attempt_recovery, handle_failed_state,
}

abbrev Retries : ℕ → St → Type 0
Retries n s = s.kode.status.retry_count ≡ n

module _ (env : Env) {n : ℕ} where
  Retries-Stable : Stable (Retries n)
  unfolding set_credentials
  Retries-Stable = record {
    calling = λ c s m h. h;
    editing = edits;
    caching = λ cache fetched s h. h;
  }
    where
      edits : (e : Edit) (s : St) → Retries n s → Retries n (record s { kode = edit e s.kode })
      edits (to_runtime r) s h = h
      edits (to_credentials c) s h = h
      edits (to_error e t) s h = h
      edits (to_condition n t st r m) s h = h

  Retries-set_condition :
      (t : ConditionType) (status : ConditionStatus) (reason message : String)
      → Keeps (Retries n) (set_condition env t status reason message)
  Retries-set_condition = Stable-set_condition env Retries-Stable

  Retries-event : (t : EventType) (reason : String) → Keeps (Retries n) (record_event t reason)
  Retries-event = Stable-event env Retries-Stable

  Retries-update_status : Keeps (Retries n) (update_status env)
  Retries-update_status = Stable-update_status env Retries-Stable

  Retries-fetch : Keeps (Retries n) (fetch_templates_with_retry env)
  Retries-fetch = Stable-fetch_templates_with_retry env Retries-Stable

  Retries-determine_recovery_phase : Keeps (Retries n) (determine_recovery_phase env)
  unfolding determine_recovery_phase
  Retries-determine_recovery_phase =
      search (keeps_rules, env_rules, Retries-fetch, Keeps-check_resources_ready) depth 20

  Retries-give_up : Keeps (Retries n) (give_up env)
  unfolding give_up
  Retries-give_up =
      search (keeps_rules, env_rules, Retries-set_condition, Retries-event, Retries-update_status)
        depth 20

  Retries-change :
      {A : Type 0} (f : Kode → Kode) (m : M A) (s : St)
      → Keeps (Retries n) m
      → (f s.kode).status.retry_count ≡ n
      → Retries n ((change f >> m) s).1
  unfolding ◌>>◌ ◌>>=◌ change
  Retries-change f m s k h = k.at _ h

module _ (env : Env) where
  Retries-attempt_recovery :
      (s : St) → Retries (s.kode.status.retry_count + 1) (attempt_recovery env s).1
  unfolding attempt_recovery ◌>>=◌ get clear_error
  Retries-attempt_recovery s =
      Retries-change env _ _ s
        (search
          (
            keeps_rules, env_rules, Retries-set_condition, Retries-event, Retries-update_status,
            Retries-determine_recovery_phase,
          )
          depth 30)
        refl

-- handleFailedState counts one more attempt as long as fewer than five have been made, and
-- none from then on, whatever the attempt meets.
pub handle_failed_state-Retries :
    (env : Env) (s : St)
    → (handle_failed_state env s).1.kode.status.retry_count ≡ (
        if leb max_retries s.kode.status.retry_count
        then s.kode.status.retry_count
        else s.kode.status.retry_count + 1)
unfolding handle_failed_state ◌>>=◌ get
handle_failed_state-Retries env s = elim (Bool-cases (leb max_retries s.kode.status.retry_count)) [
  | inl h ↦ rw h ((Retries-give_up env).at s refl)
  | inr h ↦ rw h (Retries-attempt_recovery env s)
]
