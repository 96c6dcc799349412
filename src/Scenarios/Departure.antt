-- ===== src/Scenarios/Departure.antt =====
-- The theorem on the runs that end a Kode, at a concrete input.
use kode_operator.Prelude.{
  str_eq, any, true, false, none, some, get_or, if◌then◌else◌, ◌≡◌, ◌==◌, refl,
}
use kode_operator.Go.{ok, done, ◌>>=◌, ◌>>◌, pure, if_failed, when}
use kode_operator.Api.{Kode, failed}
use kode_operator.Objects.{stateful_set, service, secret, persistent_volume_claim}
use kode_operator.Env.{Env, St, get, ask, call}
use kode_operator.KodeObject.{update_status, try_update_status, contains_finalizer}
use kode_operator.KodeObject.Laws.{same_phase_refl}
use kode_operator.Kode.Deletion.{updates}
use kode_operator.Kode.Ensure.{construct_service}
use kode_operator.Kode.Progress.{served, with_status}
use kode_operator.Kode.Release.Steps.{SavedParting}
use kode_operator.KodeObject.Saved.{last_saved}
use kode_operator.Kode.Release.Vanishing.{removes, Vanishes, Untouched}
use kode_operator.Kode.Release.Runs.{DepartsFrom, reconcile-Departs}
use kode_operator.Scenarios.World.{
  world, demo, demo_spec, demo_storage, demo_state, demo_secret, demo_stateful_set, demo_config,
  claim,
}

-- A Kode that has failed twice and has just been deleted, which has changed its generation.
abbrev leaving : Kode
leaving = record (demo failed) {
  deleted = true;
  generation = 2;
  spec = record demo_spec { storage = some record demo_storage { keep_volume = some false } };
  status = record ((demo failed).status) { deletion_cycle = 0 };
}

-- The children are there until they are deleted.
abbrev emptying : Env
emptying = record world {
  get_kode = λ t n ns. ok (with_status leaving (get_or (last_saved t) leaving.status));
  get_stateful_set = λ t n ns. served "" (
      if any (removes (record { kind = stateful_set; name = n; namespace = ns })) t
      then none
      else some demo_stateful_set);
  get_secret = λ t n ns. served "" (
      if any (removes (record { kind = secret; name = n; namespace = ns })) t
      then none
      else some demo_secret);
  get_service = λ t n ns. served "" (
      if any (removes (record { kind = service; name = n; namespace = ns })) t
      then none
      else some (construct_service demo_config));
  get_pvc = λ t n ns. served "" (
      if any (removes (record { kind = persistent_volume_claim; name = n; namespace = ns })) t
      then none
      else some claim);
}

abbrev leaving_state : St
leaving_state = record (demo_state failed) { kode = leaving }

leaving_saved : (x : St) → (update_status emptying x).0 ≡ done none
unfolding update_status try_update_status get ask call if_failed when ◌>>=◌ ◌>>◌ pure
leaving_saved x = rw same_phase_refl refl

leaving_held : contains_finalizer emptying leaving ≡ true
unfolding any str_eq
leaving_held = refl

emptying-Vanishes : Vanishes emptying leaving
emptying-Vanishes = record {
  there = λ t e. rw e refl;
  no_stateful_set = λ t e. rw e refl;
  no_secret = λ t e. rw e refl;
  no_service = λ t e. rw e refl;
  no_claim = λ t e. rw e refl;
  deletes = λ t r. refl;
  kode = λ t. refl;
  updated = λ t x. refl;
  saves = leaving_saved;
}

leaving-SavedParting :
    SavedParting leaving (Untouched leaving (updates leaving_state.calls)) failed 1 0 leaving_state
unfolding any last_saved
leaving-SavedParting = record {
  same = refl;
  phase = refl;
  seen = refl;
  cycle = refl;
  calls = record { kept = refl; count = refl };
}

reconcile-Departs_example :
    DepartsFrom
      (leaving.generation == 1)
      emptying
      leaving
      (updates leaving_state.calls)
      leaving_state
reconcile-Departs_example =
    reconcile-Departs emptying leaving failed 1 leaving_state refl leaving_held refl
      emptying-Vanishes leaving-SavedParting
