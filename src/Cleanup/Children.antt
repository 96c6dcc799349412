-- ===== src/Cleanup/Children.antt =====
-- Which calls of a cleanup reach the API server.
use kode_operator.Prelude.{
  ℕ, suc, Bool, true, false, Option, none, some, List, [], ◌∷◌, ◌≡◌, refl, ap, inl, inr, Bool-cases,
  any, arith, if◌then◌else◌,
}
use kode_operator.Go.{Error, ok, done, is_not_found, ◌>>=◌, pure, if_err}
use kode_operator.Api.{Kode}
use kode_operator.Objects.{Resource, persistent_volume_claim, same_kind}
use kode_operator.Go.Keeps.{Keeps, Keeps-bind, Keeps-pure, Keeps-if, Keeps-if_err}
use kode_operator.Env.{Env, St, Call, Trace, delete, call}
use kode_operator.Env.Frame.{Keeps-call}
use kode_operator.StateMachine.{stop, requeue_after}
use kode_operator.Cleanup.{
  CleanupableResource, keeps_volume, second, deletion_error, delete_resource, cleanup_from, cleanup,
  kode_resources, kode_should_delete, new_kode_cleanup_resource,
}

-- The resources of a list that pass the test, the last first, before what was there.
unfoldable pub deletions : (Resource → Bool) → List Resource → Trace → Trace
deletions p [] calls = calls
deletions p (r ∷ rs) calls = deletions p rs (if p r then delete r ∷ calls else calls)

-- The answer to a delete call says that the object goes away: no error, or NotFound.
abbrev pub goes_away : Option Error → Bool
goes_away none = true
goes_away (some e) = is_not_found e

deletion_error-goes_away :
    (r : Resource) (a : Option Error) → goes_away a ≡ true → deletion_error r a ≡ none
deletion_error-goes_away r none g = refl
deletion_error-goes_away r (some e) g = rw g refl

module _ (env : Env)
    (all_go : (t : Trace) (r : Resource) → goes_away (env.delete_object t r) ≡ true) where
  deleted :
      (r : Resource) (s : St)
      → delete_resource env r s ≡ (done none, record s { calls = delete r ∷ s.calls })
  unfolding delete_resource ◌>>=◌ call pure
  deleted r s =
      ap (λ e. (done e, record s { calls = delete r ∷ s.calls }))
        (deletion_error-goes_away r (env.delete_object s.calls r) (all_go s.calls r))

  cleanup_from-deletions :
      (p : Resource → Bool) (b : Bool) (rs : List Resource) (s : St)
      → cleanup_from env p b rs s
        ≡ (done (ok (if b then true else any p rs)), record s { calls = deletions p rs s.calls })
  unfolding cleanup_from pure any deletions ◌>>=◌ if_err
  cleanup_from-deletions p true [] s = refl
  cleanup_from-deletions p false [] s = refl
  cleanup_from-deletions p true (r ∷ rs) s = elim (Bool-cases (p r)) [
    | inl e ↦ rw (e, deleted r s) (cleanup_from-deletions p true rs _)
    | inr e ↦ rw e (cleanup_from-deletions p true rs s)
  ]
  cleanup_from-deletions p false (r ∷ rs) s = elim (Bool-cases (p r)) [
    | inl e ↦ rw (e, deleted r s) (cleanup_from-deletions p true rs _)
    | inr e ↦ rw e (cleanup_from-deletions p false rs s)
  ]

-- If every delete call succeeds or finds nothing, a cleanup makes one delete call for each resource
-- that its owner gives up, in their order, and none for the others; it asks to be run again
-- after a second if there was one.
pub cleanup-deletions :
    (env : Env) (c : CleanupableResource) (s : St)
    → ((t : Trace) (r : Resource) → goes_away (env.delete_object t r) ≡ true)
    → cleanup env c s ≡ (
      done (ok (if any c.should_delete c.get_resources then requeue_after second else stop)),
      record s { calls = deletions c.should_delete c.get_resources s.calls },
    )
unfolding cleanup ◌>>=◌ pure
cleanup-deletions env c s all_go =
    rw (cleanup_from-deletions env all_go c.should_delete false c.get_resources s) refl

-- The delete calls of persistent volume claims.
unfoldable pub claims_deleted : Trace → ℕ
claims_deleted [] = 0
claims_deleted (c ∷ cs) = let rest = claims_deleted cs in if deletes_claim c then suc rest else rest
  where
    deletes_claim : Call → Bool
    deletes_claim (delete r) = same_kind r.kind persistent_volume_claim
    deletes_claim _ = false

module _ (env : Env) (p : Resource → Bool)
    (spares : (r : Resource) → p r ≡ true → same_kind r.kind persistent_volume_claim ≡ false)
    (n : ℕ) where
  abbrev Spared : St → Type 0
  Spared s = claims_deleted s.calls ≡ n

  Spared-delete_resource : (r : Resource) → p r ≡ true → Keeps Spared (delete_resource env r)
  unfolding delete_resource claims_deleted
  Spared-delete_resource r e =
      Keeps-bind _ _ (Keeps-call _ _ (λ s h. rw (spares r e) h)) (λ a. Keeps-pure _)

  Spared-cleanup_from : (b : Bool) (rs : List Resource) → Keeps Spared (cleanup_from env p b rs)
  unfolding cleanup_from
  Spared-cleanup_from b [] = Keeps-pure _
  Spared-cleanup_from b (r ∷ rs) = elim (Bool-cases (p r)) [
    | inl e ↦ rw e (
        Keeps-bind _ _ (Spared-delete_resource r e) (λ a.
          Keeps-if_err a _ _
            (λ x. Keeps-if (is_not_found x) _ _ (Spared-cleanup_from b rs) (Keeps-pure _))
            (Spared-cleanup_from true rs)))
    | inr e ↦ rw e (Spared-cleanup_from b rs)
  ]

  pub Spared-cleanup :
      (rs : List Resource)
      → Keeps Spared (cleanup env (record { get_resources = rs; should_delete = p }))
  unfolding cleanup
  Spared-cleanup rs = Keeps-bind _ _ (Spared-cleanup_from false rs) (λ r. Keeps-pure _)

-- The cleanup of a Kode whose storage has KeepVolume set deletes no persistent volume claim,
-- whatever the API server answers.
pub cleanup-keeps_volume :
    (env : Env) (k : Kode) (s : St)
    → keeps_volume k.spec.storage ≡ true
    → claims_deleted (cleanup env (new_kode_cleanup_resource k) s).1.calls ≡ claims_deleted s.calls
unfolding new_kode_cleanup_resource kode_should_delete
cleanup-keeps_volume env k s keep =
    (Spared-cleanup env (kode_should_delete k) spares (claims_deleted s.calls)
        (kode_resources k)).at
      s refl
  where
    spares :
        (r : Resource)
        → kode_should_delete k r ≡ true
        → same_kind r.kind persistent_volume_claim ≡ false
    spares r e = ground (arith, rw keep at e)
