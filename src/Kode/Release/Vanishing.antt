-- ===== src/Kode/Release/Vanishing.antt =====
-- The child resources of a Kode go away when they are deleted: what the API server answers, and what the checks and the
-- cleanup make of it.
use kode_operator.Prelude.{
  ℕ, suc, not, str_eq, str_eq_refl, ◌&&◌, String, ◌∙◌, sym, Bool, true, false, Option, none, some,
  is_none, is_some, any, ◌≡◌, ◌||◌, refl, ap, false≢true, Bool-cases, inl, inr, arith,
  if◌then◌else◌, get_or,
}
use kode_operator.Go.{Result, ok, err, done, ◌>>=◌, pure, if_failed}
use kode_operator.Go.Succeeds.{Succeeds, Succeeds-pure, Succeeds-if, Succeeds-unless}
use kode_operator.Api.{Kode, KodeStatus, KodeStorageSpec, Phase}
use kode_operator.Api.Names.{get_secret_name, get_service_name, get_stateful_set_name, get_pvc_name}
use kode_operator.Objects.{
  stateful_set, service, secret, persistent_volume_claim, same_kind, Resource,
}
use kode_operator.Env.{Env, St, M, Trace, Call, delete, get, ask, call}
use kode_operator.StateMachine.{requeue_after}
use kode_operator.Cleanup.{
  second, own_claim, keeps_volume, kode_resources, kode_should_delete, new_kode_cleanup_resource,
  cleanup,
}
use kode_operator.Cleanup.Children.{deletions, goes_away, cleanup-deletions}
use kode_operator.KodeObject.Saved.{last_saved}
use kode_operator.KodeObject.{update_status, update_finalizers, remove_finalizer}
use kode_operator.Kode.Checks.{still_there, unless_there, skip_pvc, check_resources_deleted}
use kode_operator.Kode.Deletion.{updates, found}
use kode_operator.Kode.Progress.{with_status}
use kode_operator.Kode.Release.{gone, released}
use kode_operator.Kode.Release.Steps.{Parting, Parting-calls, Parting-gone, Steady}

-- The call deletes the resource.
unfoldable pub removes : Resource → Call → Bool
removes r (delete q) =
    same_kind q.kind r.kind && (str_eq q.name r.name && str_eq q.namespace r.namespace)
removes r _ = false

-- The child resources of a Kode
abbrev pub the_stateful_set : Kode → Resource
the_stateful_set k = record {
  kind = stateful_set;
  name = get_stateful_set_name k;
  namespace = k.namespace;
}

abbrev pub the_secret : Kode → Resource
the_secret k = record { kind = secret; name = get_secret_name k; namespace = k.namespace }

abbrev pub the_service : Kode → Resource
the_service k = record { kind = service; name = get_service_name k; namespace = k.namespace }

abbrev pub the_claim : Kode → Resource
the_claim k = record {
  kind = persistent_volume_claim;
  name = get_pvc_name k;
  namespace = k.namespace;
}

-- An API server that has the StatefulSet until it is told to delete it, that has none of the children any
-- more after their deletion, and that takes every call. The Kode has the status that was saved last, and its
-- own one before.
pub record Vanishes (env : Env) (k : Kode) : Type 0 where
  pub there :
      (t : Trace)
      → any (removes (the_stateful_set k)) t ≡ false
      → found (env.get_stateful_set t (get_stateful_set_name k) k.namespace) ≡ true
  pub no_stateful_set :
      (t : Trace)
      → any (removes (the_stateful_set k)) t ≡ true
      → gone (env.get_stateful_set t (get_stateful_set_name k) k.namespace) ≡ true
  pub no_secret :
      (t : Trace)
      → any (removes (the_secret k)) t ≡ true
      → gone (env.get_secret t (get_secret_name k) k.namespace) ≡ true
  pub no_service :
      (t : Trace)
      → any (removes (the_service k)) t ≡ true
      → gone (env.get_service t (get_service_name k) k.namespace) ≡ true
  pub no_claim :
      (t : Trace)
      → any (removes (the_claim k)) t ≡ true
      → gone (env.get_pvc t (get_pvc_name k) k.namespace) ≡ true
  pub deletes : (t : Trace) (r : Resource) → goes_away (env.delete_object t r) ≡ true
  pub kode :
      (t : Trace)
      → env.get_kode t k.name k.namespace ≡ ok (with_status k (get_or (last_saved t) k.status))
  pub updated : (t : Trace) (x : Kode) → env.update_kode t x ≡ none
  pub saves : (s : St) → (update_status env s).0 ≡ done none

-- The StatefulSet is not deleted, and the Kode has been updated `n` times.
pub record Untouched (k : Kode) (n : ℕ) (t : Trace) : Type 0 where
  pub kept : any (removes (the_stateful_set k)) t ≡ false
  pub count : updates t ≡ n

-- The children of the Kode are deleted, and it has been updated `n` times.
pub record Cleared (k : Kode) (n : ℕ) (t : Trace) : Type 0 where
  pub stateful_set_deleted : any (removes (the_stateful_set k)) t ≡ true
  pub secret_deleted : any (removes (the_secret k)) t ≡ true
  pub service_deleted : any (removes (the_service k)) t ≡ true
  pub claim_deleted : own_claim k.spec.storage ≡ true → any (removes (the_claim k)) t ≡ true
  pub count : updates t ≡ n

pub Untouched-Steady : (k : Kode) (n : ℕ) → Steady (Untouched k n)
unfolding any updates removes
Untouched-Steady k n = record {
  patched = λ x t h. record { kept = h.kept; count = h.count };
  told = λ type reason t h. record { kept = h.kept; count = h.count };
}

pub Cleared-Steady : (k : Kode) (n : ℕ) → Steady (Cleared k n)
unfolding any updates removes
Cleared-Steady k n = record {
  patched = λ x t h. record {
    stateful_set_deleted = h.stateful_set_deleted;
    secret_deleted = h.secret_deleted;
    service_deleted = h.service_deleted;
    claim_deleted = h.claim_deleted;
    count = h.count;
  };
  told = λ type reason t h. record {
    stateful_set_deleted = h.stateful_set_deleted;
    secret_deleted = h.secret_deleted;
    service_deleted = h.service_deleted;
    claim_deleted = h.claim_deleted;
    count = h.count;
  };
}

-- The Kode has been updated `n` times, the last time without the finalizer.
pub record Freed (env : Env) (n : ℕ) (t : Trace) : Type 0 where
  pub count : updates t ≡ n
  pub free : released env t ≡ true

pub Freed-Steady : (env : Env) (n : ℕ) → Steady (Freed env n)
unfolding updates released
Freed-Steady env n = record {
  patched = λ x t h. record { count = h.count; free = h.free };
  told = λ type reason t h. record { count = h.count; free = h.free };
}

found-still_there :
    {A : Type 0} (r : Result A) (m : M (Result Bool))
    → found r ≡ true
    → unless_there (still_there r) m ≡ pure (ok false)
found-still_there (ok a) m h = refl
found-still_there (err e) m h = elim (false≢true h) [ ]

-- The claim is checked only if it is the Kode's own.
checked-own : (env : Env) (k : Kode) → skip_pvc env k ≡ false → own_claim k.spec.storage ≡ true
unfolding skip_pvc
checked-own env k h = go k.spec.storage h
  where
    go :
        (o : Option KodeStorageSpec)
        → (env.is_test_environment
            || is_none o
            || is_some (elim o [ none ↦ none | some s ↦ s.existing_volume_claim ]))
          ≡ false
        → own_claim o ≡ true
    go none h = absurd (ground (arith, h))
    go (some s) h = owned s.existing_volume_claim h
      where
        owned :
            (o : Option String)
            → (env.is_test_environment || false || is_some o) ≡ false
            → elim o [ none ↦ true | some c ↦ false ] ≡ true
        owned none h = refl
        owned (some c) h = absurd (ground (arith, h))

-- The calls of the cleanup delete all.
deletions-Cleared :
    (k : Kode) (n : ℕ) (t : Trace)
    → keeps_volume k.spec.storage ≡ false
    → updates t ≡ n
    → Cleared k n (deletions (kode_should_delete k) (kode_resources k) t)
unfolding deletions kode_should_delete kode_resources any updates same_kind removes
    get_stateful_set_name
deletions-Cleared k n t keep e = elim (Bool-cases (own_claim k.spec.storage)) [
  | inl own ↦
      rw (own, keep)
        (record {
          stateful_set_deleted = rw (str_eq_refl k.name, str_eq_refl k.namespace) refl;
          secret_deleted = rw (str_eq_refl (get_secret_name k), str_eq_refl k.namespace) refl;
          service_deleted = rw (str_eq_refl (get_service_name k), str_eq_refl k.namespace) refl;
          claim_deleted = λ o. rw (str_eq_refl (get_pvc_name k), str_eq_refl k.namespace) refl;
          count = e;
        })
  | inr own ↦
      rw (own, keep)
        (record {
          stateful_set_deleted = rw (str_eq_refl k.name, str_eq_refl k.namespace) refl;
          secret_deleted = rw (str_eq_refl (get_secret_name k), str_eq_refl k.namespace) refl;
          service_deleted = rw (str_eq_refl (get_service_name k), str_eq_refl k.namespace) refl;
          claim_deleted = λ o. elim (false≢true (sym own ∙ o)) [ ];
          count = e;
        })
]

module _ {env : Env} {k : Kode} (vanishes : Vanishes env k) {p : Phase} {o c n : ℕ} where
  pub Untouched-check :
      (st : KodeStatus)
      → Succeeds
          (Parting k (Untouched k n) p o c)
          (Parting k (Untouched k n) p o c)
          (check_resources_deleted env (with_status k st))
          (ok false)
  unfolding check_resources_deleted ask ◌>>=◌ get_stateful_set_name pure
  Untouched-check st = record {
    at = λ s h. rw (found-still_there _ _ (vanishes.there s.calls h.calls.kept)) (refl, h);
  }

  Claim-gone :
      (st : KodeStatus)
      → Succeeds
          (Parting k (Cleared k n) p o c)
          (Parting k (Cleared k n) p o c)
          (if skip_pvc env (with_status k st)
            then pure (ok true)
            else (ask (λ t. env.get_pvc t (get_pvc_name (with_status k st)) k.namespace) >>= λ pvc.
                unless_there (still_there pvc) (pure (ok true))))
          (ok true)
  unfolding get_pvc_name
  Claim-gone st = elim (Bool-cases (skip_pvc env (with_status k st))) [
    | inl e ↦ Succeeds-if _ _ _ _ e (Succeeds-pure _)
    | inr e ↦ Succeeds-unless _ _ _ _ e (
        Parting-gone _ _ _
          (λ t h. vanishes.no_claim t (h.claim_deleted (checked-own env (with_status k st) e)))
          (Succeeds-pure _))
  ]

  pub Cleared-check :
      (st : KodeStatus)
      → Succeeds
          (Parting k (Cleared k n) p o c)
          (Parting k (Cleared k n) p o c)
          (check_resources_deleted env (with_status k st))
          (ok true)
  unfolding check_resources_deleted get_stateful_set_name get_secret_name get_service_name
      get_pvc_name
  Cleared-check st =
      Parting-gone _ _ _ (λ t h. vanishes.no_stateful_set t h.stateful_set_deleted)
        (Parting-gone _ _ _ (λ t h. vanishes.no_secret t h.secret_deleted)
          (Parting-gone _ _ _ (λ t h. vanishes.no_service t h.service_deleted) (Claim-gone st)))

  pub Untouched-cleanup :
      (st : KodeStatus)
      → keeps_volume k.spec.storage ≡ false
      → Succeeds
          (Parting k (Untouched k n) p o c)
          (Parting k (Cleared k n) p o c)
          (cleanup env (new_kode_cleanup_resource (with_status k st)))
          (ok (requeue_after second))
  unfolding any kode_should_delete kode_resources new_kode_cleanup_resource same_kind
      get_service_name get_secret_name get_pvc_name
  Untouched-cleanup st keep = record {
    at = λ s h.
        rw (cleanup-deletions env (new_kode_cleanup_resource (with_status k st)) s vanishes.deletes)
          (rw keep refl, Parting-calls s _ h (deletions-Cleared k n s.calls keep h.calls.count));
  }

  pub Cleared-remove_finalizer :
      Succeeds
        (Parting k (Cleared k n) p o c)
        (Parting k (Freed env (suc n)) p o c)
        (remove_finalizer env)
        none
  unfolding remove_finalizer update_finalizers ◌>>=◌ get ask call pure if_failed updates released
  Cleared-remove_finalizer = record {
    at = λ s h. go s h (env.get_kode s.calls s.kode.name s.kode.namespace) refl (
        ap (λ x. found (env.get_kode s.calls x.name x.namespace)) h.same
        ∙ ap found (vanishes.kode s.calls));
  }
    where
      go :
          (s : St)
          → Parting k (Cleared k n) p o c s
          → (r : Result Kode) → env.get_kode s.calls s.kode.name s.kode.namespace ≡ r
          → found r ≡ true
          → ((remove_finalizer env s).0 ≡ done none)
            × Parting k (Freed env (suc n)) p o c (remove_finalizer env s).1
      go s h (err x) e f = elim (false≢true f) [ ]
      go s h (ok x) e f =
          rw (e, vanishes.updated)
            (
              refl,
              Parting-calls s _ h (record {
                count = ap suc h.calls.count;
                free = ap not (env.finalizers.contains-remove _ _);
              }),
            )
