-- ===== src/Kode/Release.antt =====
-- How a deletion ends.
pub mod Steps
pub mod Vanishing
pub mod Runs
use kode_operator.Prelude.{
  ℕ, suc, [], ◌∷◌, not, ap, String, Bool, true, false, Option, none, List, ◌≡◌, ◌==◌, refl, sym,
  subst, inl, inr, Bool-cases, false≢true, if◌then◌else◌,
}
use kode_operator.Go.{
  Error, Result, ok, err, is_not_found, Outcome, done, ◌>>=◌, ◌>>◌, pure, if_failed, if_err, modify,
}
use kode_operator.Condition
use kode_operator.Condition.{Condition, ConditionType, ConditionStatus}
use kode_operator.Api.{Kode, deleting}
use kode_operator.Api.Names.{get_secret_name, get_service_name, get_stateful_set_name, get_pvc_name}
use kode_operator.Env.{Env, St, M, Trace, ask, call, get, change, record_event, warning, update}
use kode_operator.KodeObject.{
  set_condition, update_status, contains_finalizer, update_finalizers, remove_finalizer,
}
use kode_operator.KodeObject.Laws.{with_conditions, Keeps-update_status, update_status-same}
use kode_operator.StateMachine.{stop, Next}
use kode_operator.Kode.Checks.{still_there, unless_there, skip_pvc, check_resources_deleted}
use kode_operator.Kode.Errors.{handle_reconcile_error}
use kode_operator.Kode.Deletion.{updates, found}
use kode_operator.Kode.Handlers.Deleting.{
  start_cleanup, next_cycle, finish_deletion, handle_deleting_state,
}

-- The last update of the Kode has sent it without the finalizer.
unfoldable pub released : Env → Trace → Bool
released env [] = false
released env (update k ∷ t) = not (contains_finalizer env k)
released env (_ ∷ t) = released env t

-- The object is not found.
abbrev pub gone : {A : Type 0} → Result A → Bool
gone (ok a) = false
gone (err e) = is_not_found e

pub unless_there-gone :
    {A : Type 0} (r : Result A) (m : M (Result Bool))
    → gone r ≡ true
    → unless_there (still_there r) m ≡ m
unless_there-gone (ok a) m h = elim (false≢true h) [ ]
unless_there-gone (err e) m h = rw h refl

-- None of the four child resources of the Kode is ever found.
pub record AllGone (env : Env) (k : Kode) : Type 0 where
  pub no_stateful_set :
      (t : Trace) → gone (env.get_stateful_set t (get_stateful_set_name k) k.namespace) ≡ true
  pub no_secret : (t : Trace) → gone (env.get_secret t (get_secret_name k) k.namespace) ≡ true
  pub no_service : (t : Trace) → gone (env.get_service t (get_service_name k) k.namespace) ≡ true
  pub no_claim : (t : Trace) → gone (env.get_pvc t (get_pvc_name k) k.namespace) ≡ true

module _ (env : Env) where
  check_resources_deleted-AllGone :
      (k : Kode) (u : St) → AllGone env k → check_resources_deleted env k u ≡ (done (ok true), u)
  unfolding check_resources_deleted ◌>>=◌ ask pure
  check_resources_deleted-AllGone k u h = elim (Bool-cases (skip_pvc env k)) [
    | inl e ↦
        rw
          (
            unless_there-gone _ _ (h.no_stateful_set u.calls),
            unless_there-gone _ _ (h.no_secret u.calls),
            unless_there-gone _ _ (h.no_service u.calls),
            e,
          )
          refl
    | inr e ↦
        rw
          (
            unless_there-gone _ _ (h.no_stateful_set u.calls),
            unless_there-gone _ _ (h.no_secret u.calls),
            unless_there-gone _ _ (h.no_service u.calls),
            e,
            unless_there-gone _ _ (h.no_claim u.calls),
          )
          refl
  ]

  -- The handler ends, and it has updated the Kode once more than `n` times, the last time without the finalizer.
  abbrev pub Released : ℕ → Outcome Next × St → Type 0
  Released n r =
      (r.0 ≡ done (deleting, stop, none))
      × (updates r.1.calls ≡ suc n)
      × (released env r.1.calls ≡ true)

  finish_deletion-Released :
      (u : St)
      → contains_finalizer env u.kode ≡ true
      → found (env.get_kode u.calls u.kode.name u.kode.namespace) ≡ true
      → ((t : Trace) (k : Kode) → env.update_kode t k ≡ none)
      → Released (updates u.calls) (finish_deletion env u)
  unfolding finish_deletion remove_finalizer update_finalizers ◌>>=◌ ◌>>◌ get ask call pure
      if_failed if_err record_event modify updates released
  finish_deletion-Released u c f w = go (env.get_kode u.calls u.kode.name u.kode.namespace) refl f
    where
      go :
          (r : Result Kode)
          → env.get_kode u.calls u.kode.name u.kode.namespace ≡ r
          → found r ≡ true
          → Released (updates u.calls) (finish_deletion env u)
      go (err x) e h = elim (false≢true h) [ ]
      go (ok k) e h = rw (c, e, w) (refl, refl, ap not (env.finalizers.contains-remove _ _))

  -- What the end of the deletion needs of the Kode in memory and of the API server's answers.
  record Free (k : Kode) : Type 0 where
    all_gone : AllGone env k
    held : contains_finalizer env k ≡ true
    known : (t : Trace) → found (env.get_kode t k.name k.namespace) ≡ true

  Free-with_conditions :
      (f : List Condition → List Condition) (k : Kode) → Free k → Free (with_conditions f k)
  unfolding get_stateful_set_name get_secret_name get_service_name get_pvc_name
  Free-with_conditions f k h = record {
    all_gone = record {
      no_stateful_set = h.all_gone.no_stateful_set;
      no_secret = h.all_gone.no_secret;
      no_service = h.all_gone.no_service;
      no_claim = h.all_gone.no_claim;
    };
    held = h.held;
    known = h.known;
  }

  module _ (saved : (x : St) → (update_status env x).0 ≡ done none)
      (written : (t : Trace) (k : Kode) → env.update_kode t k ≡ none) where
    -- From a Kode that is free, `m` ends the deletion.
    record Ends (n : ℕ) (m : M Next) : Type 0 where
      at : (x : St) → Free x.kode → updates x.calls ≡ n → Released n (m x)

    module _ (n : ℕ) where
      Ends-set_condition :
          (t : ConditionType) (status : ConditionStatus) (reason message : String) (m : M Next)
          → Ends n m
          → Ends n (set_condition env t status reason message >> m)
      unfolding set_condition ◌>>◌ ◌>>=◌ ask change
      Ends-set_condition t status reason message m k = record {
        at = λ x h e.
            k.at _
              (Free-with_conditions
                (Condition.set_condition (env.now x.calls) t status reason message) x.kode h)
              e;
      }

      Ends-update_status :
          (f : Option Error → M Next) → Ends n (f none) → Ends n (update_status env >>= f)
      unfolding ◌>>=◌ updates
      Ends-update_status f k = record {
        at = λ x h e. rw (saved x) (
            k.at (update_status env x).1 (subst Free (sym (update_status-same env x)) h)
              ((Keeps-update_status env {P = λ u. updates u.calls ≡ n} (λ k s h. h)).at x e));
      }

      Ends-check : Ends n (
          get >>= λ kode. check_resources_deleted env kode >>= λ gone.
          if_failed gone
            (λ e.
              record_event warning "DeletionCheckFailed"
              >> handle_reconcile_error env e "Failed to check child resources deletion")
            (λ b.
              if b
              then finish_deletion env
              else if kode.status.deletion_cycle == 0
              then start_cleanup env
              else next_cycle env))
      unfolding ◌>>=◌ get if_failed
      Ends-check = record {
        at = λ u h e. rw (check_resources_deleted-AllGone u.kode u h.all_gone) (
            subst (λ m. Released m (finish_deletion env u)) e
              (finish_deletion-Released u h.held (h.known u.calls) written));
      }

      Ends-handle_deleting_state : Ends n (handle_deleting_state env)
      unfolding handle_deleting_state if_err
      Ends-handle_deleting_state = Ends-set_condition _ _ _ _ _ (
          Ends-set_condition _ _ _ _ _
            (Ends-set_condition _ _ _ _ _ (Ends-update_status _ Ends-check)))

-- If none of the four child resources is ever found, the status can be saved and the Kode can be
-- read and updated, then handleDeletingState updates the Kode once, without the finalizer, and stops.
pub handle_deleting_state-Released :
    (env : Env) (s : St)
    → AllGone env s.kode
    → contains_finalizer env s.kode ≡ true
    → ((t : Trace) → found (env.get_kode t s.kode.name s.kode.namespace) ≡ true)
    → ((x : St) → (update_status env x).0 ≡ done none)
    → ((t : Trace) (k : Kode) → env.update_kode t k ≡ none)
    → Released env (updates s.calls) (handle_deleting_state env s)
handle_deleting_state-Released env s all_gone held known saved written =
    (Ends-handle_deleting_state env saved written (updates s.calls)).at s
      (record { all_gone = all_gone; held = held; known = known }) refl
