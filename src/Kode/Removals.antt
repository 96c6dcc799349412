-- ===== src/Kode/Removals.antt =====
-- Who deletes the child resources and updates the finalizers.
use kode_operator.Prelude.{ℕ, suc, Bool, true, false, not, [], ◌∷◌, ◌≡◌, refl, if◌then◌else◌}
use kode_operator.Go.{◌>>=◌, gets}
use kode_operator.Go.Keeps.{Keeps}
use kode_operator.Api.{Phase, same_phase, deleting}
use kode_operator.Objects.{Kind, same_kind}
use kode_operator.Env.{Env, St, Call, Trace, delete, update, note}
use kode_operator.StateMachine.{run_handler, handle_state}
use kode_operator.Kode.Frame.{
  Minor, patches, secrets, services, stateful_sets, claims, pods, events, Calm,
}
use kode_operator.Kode.Frame.Machine.{Calm-run_live}
use kode_operator.Kode.Reconcile.{kode_resource, kode_handlers}

-- The calls that delete something else than a pod, and the updates of a Kode, which are the changes
-- of its finalizers.
unfoldable pub removals : Trace → ℕ
unfolding same_kind
removals [] = 0
removals (c ∷ cs) = let rest = removals cs in if is_removal c then suc rest else rest
  where
    is_removal : Call → Bool
    is_removal (delete r) = not (same_kind r.kind Kind.pod)
    is_removal (update k) = true
    is_removal _ = false

module _ (env : Env) (interval : ℕ) (n : ℕ) where
  abbrev Kept : St → Type 0
  Kept s = removals s.calls ≡ n

  Kept-Minor : (c : Call) (s : St) → Minor c → Kept s → Kept (note c s)
  unfolding removals same_kind
  Kept-Minor c s (patches k) h = h
  Kept-Minor c s (secrets x y z) h = h
  Kept-Minor c s (services x y z) h = h
  Kept-Minor c s (stateful_sets x y z) h = h
  Kept-Minor c s (claims x) h = h
  Kept-Minor c s (pods x y) h = h
  Kept-Minor c s (events t r) h = h

  Kept-Calm : Calm Kept
  Kept-Calm = record {
    stable = record {
      calling = Kept-Minor;
      editing = λ e s h. h;
      caching = λ cache fetched s h. h;
    };
    counting = λ c s h. h;
  }

  Kept-handlers :
      (p : Phase)
      → same_phase p deleting ≡ false
      → Keeps Kept (run_handler (kode_resource env) interval (kode_handlers env p) p)
  Kept-handlers = Calm-run_live env interval Kept-Calm (λ q s h. h)

-- In every phase but Deleting, HandleState deletes nothing but pods and does not touch the finalizers,
-- whatever the API server answers.
pub handle_state-removals :
    (env : Env) (interval : ℕ) (s : St)
    → same_phase s.kode.status.phase deleting ≡ false
    → removals (handle_state (kode_resource env) interval (kode_handlers env) s).1.calls
      ≡ removals s.calls
unfolding handle_state ◌>>=◌ gets
handle_state-removals env interval s e =
    (Kept-handlers env interval (removals s.calls) s.kode.status.phase e).at s refl
