-- ===== src/Scenarios/Machine.antt =====
-- The theorems on the state machine, deletion and recovery at concrete inputs.
use kode_operator.Prelude.{none, true, str_eq, ◌+◌, any, ◌≡◌, refl, false, [], leb, if◌then◌else◌}
use kode_operator.Go.{err, when, if_failed, pure, ◌>>=◌, ◌>>◌, ok, done}
use kode_operator.Api.{same_phase, active, deleting, failed}
use kode_operator.StateMachine.{requeue_after, handle_state}
use kode_operator.Cleanup.{second, cleanup, new_kode_cleanup_resource}
use kode_operator.Cleanup.Children.{
  deletions, claims_deleted, cleanup-deletions, cleanup-keeps_volume,
}
use kode_operator.Kode.Checks.{skip_pvc}
use kode_operator.Kode.Deletion.{updates, handle_deleting_state-waits}
use kode_operator.Kode.Handlers.Deleting.{handle_deleting_state}
use kode_operator.Kode.Handlers.Recovery.{max_retries, handle_failed_state}
use kode_operator.Kode.Phases.{Moves}
use kode_operator.Kode.Phases.Machine.{handle_state-Moves, reconcile_kode-never_fails}
use kode_operator.Kode.Reconcile.{kode_resource, kode_handlers, reconcile_kode}
use kode_operator.Kode.Removals.{removals, handle_state-removals}
use kode_operator.Kode.Retries.{handle_failed_state-Retries}
use kode_operator.Kode.Release.{AllGone, Released, handle_deleting_state-Released}
use kode_operator.KodeObject.{contains_finalizer, update_status, try_update_status}
use kode_operator.KodeObject.Laws.{same_phase_refl}
use kode_operator.Env.{Env, St, get, ask, call}
use kode_operator.Scenarios.World.{missing, demo, world, demo_state}

active-live : same_phase active failed ≡ false
unfolding same_phase
active-live = refl

reconcile_kode-never_fails_example :
    same_phase (reconcile_kode world (demo_state active)).1.kode.status.phase failed ≡ false
reconcile_kode-never_fails_example =
    reconcile_kode-never_fails world (demo_state active) active-live

handle_state-Moves_example :
    Moves failed
      (handle_state
        (kode_resource world)
        5
        (kode_handlers world)
        (demo_state failed)).1.kode.status.phase
handle_state-Moves_example = handle_state-Moves world 5 (demo_state failed)

active-kept : same_phase active deleting ≡ false
unfolding same_phase
active-kept = refl

handle_state-removals_example :
    removals
      (handle_state (kode_resource world) 5 (kode_handlers world) (demo_state active)).1.calls
    ≡ removals []
handle_state-removals_example = handle_state-removals world 5 (demo_state active) active-kept

claim_waited : skip_pvc world (demo deleting) ≡ false
unfolding skip_pvc
claim_waited = refl

handle_deleting_state-waits_example :
    updates (handle_deleting_state world (demo_state deleting)).1.calls ≡ updates []
handle_deleting_state-waits_example =
    handle_deleting_state-waits world (demo_state deleting) claim_waited (λ t. refl)

cleanup-deletions_example :
    cleanup world (new_kode_cleanup_resource (demo deleting)) (demo_state deleting) ≡ (
      done (
          ok (
            if any
              (new_kode_cleanup_resource (demo deleting)).should_delete
              (new_kode_cleanup_resource (demo deleting)).get_resources
            then requeue_after second
            else kode_operator.StateMachine.stop)),
      record (demo_state deleting) {
        calls =
            deletions
              (new_kode_cleanup_resource (demo deleting)).should_delete
              (new_kode_cleanup_resource (demo deleting)).get_resources
              [];
      },
    )
cleanup-deletions_example =
    cleanup-deletions world (new_kode_cleanup_resource (demo deleting)) (demo_state deleting)
      (λ t r. refl)

cleanup-keeps_volume_example :
    claims_deleted
      (cleanup world (new_kode_cleanup_resource (demo deleting)) (demo_state deleting)).1.calls
    ≡ claims_deleted []
cleanup-keeps_volume_example = cleanup-keeps_volume world (demo deleting) (demo_state deleting) refl

handle_failed_state-Retries_example :
    (handle_failed_state world (demo_state failed)).1.kode.status.retry_count
    ≡ (if leb max_retries 2 then 2 else 2 + 1)
handle_failed_state-Retries_example = handle_failed_state-Retries world (demo_state failed)

-- The world once the child resources are gone.
abbrev empty_world : Env
empty_world = record world {
  get_stateful_set = λ t n ns. err missing;
  get_secret = λ t n ns. err missing;
  get_service = λ t n ns. err missing;
  get_pvc = λ t n ns. err missing;
}

all_gone : AllGone empty_world (demo deleting)
all_gone = record {
  no_stateful_set = λ t. refl;
  no_secret = λ t. refl;
  no_service = λ t. refl;
  no_claim = λ t. refl;
}

finalizer_held : contains_finalizer empty_world (demo deleting) ≡ true
unfolding any str_eq
finalizer_held = refl

status_saved : (x : St) → (update_status empty_world x).0 ≡ done none
unfolding update_status try_update_status get ask call if_failed when ◌>>=◌ ◌>>◌ pure
status_saved x = rw same_phase_refl refl

handle_deleting_state-Released_example :
    Released empty_world (updates []) (handle_deleting_state empty_world (demo_state deleting))
handle_deleting_state-Released_example =
    handle_deleting_state-Released empty_world (demo_state deleting) all_gone finalizer_held
      (λ t. refl) status_saved (λ t k. refl)
