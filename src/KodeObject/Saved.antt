-- ===== src/KodeObject/Saved.antt =====
-- What UpdateStatus saves.
use kode_operator.Prelude.{
  true, false≢true, Option, none, some, [], ◌∷◌, ◌≡◌, refl, sym, ap, subst, ◌∙◌,
}
use kode_operator.Go.{Error, Result, ok, err, Outcome, ◌>>=◌, ◌>>◌, pure, if_failed, when}
use kode_operator.Api.{Kode, KodeStatus}
use kode_operator.Env.{Env, St, Trace, Attempts, patch_status, get, ask, call}
use kode_operator.KodeObject.{try_update_status, update_status}
use kode_operator.KodeObject.Laws.{same_phase_refl}
use kode_operator.Kode.Deletion.{found}

-- The status of the Kode that was sent last.
unfoldable pub last_saved : Trace → Option KodeStatus
last_saved [] = none
last_saved (patch_status k ∷ t) = some k.status
last_saved (_ ∷ t) = last_saved t

-- How a save of the Kode `k` ends: its status is the last that was sent, and the Kode in memory is the same.
pub record Saves (k : Kode) (r : Outcome (Option Error) × St) : Type 0 where
  pub same : r.1.kode ≡ k
  pub last : last_saved r.1.calls ≡ some k.status

module _ (env : Env) (k : Kode)
    (known : (t : Trace) → found (env.get_kode t k.name k.namespace) ≡ true) where
  try_update_status-Saves : (s : St) → s.kode ≡ k → Saves k (try_update_status env s)
  unfolding try_update_status get ask call if_failed when ◌>>=◌ ◌>>◌ pure last_saved
  try_update_status-Saves s e =
      go (env.get_kode s.calls s.kode.name s.kode.namespace) refl
        (ap (λ x. found (env.get_kode s.calls x.name x.namespace)) e ∙ known s.calls)
    where
      go :
          (r : Result Kode)
          → env.get_kode s.calls s.kode.name s.kode.namespace ≡ r
          → found r ≡ true
          → Saves k (try_update_status env s)
      go (err x) q f = elim (false≢true f) [ ]
      go (ok latest) q f =
          rw (q, same_phase_refl) (record { same = e; last = ap (λ x. some x.status) e })

  Attempts-Saves :
      (s : St) (r : Outcome (Option Error) × St)
      → Attempts (try_update_status env) s r
      → s.kode ≡ k
      → Saves k r
  Attempts-Saves s r (Attempts.last _ _ q) e = subst (Saves k) q (try_update_status-Saves s e)
  Attempts-Saves s r (Attempts.again _ t _ message q rest) e =
      Attempts-Saves t r rest (ap (λ x. x.1.kode) (sym q) ∙ (try_update_status-Saves s e).same)

  -- UpdateStatus of a Kode that is found sends its status last, however often it is tried again.
  pub update_status-Saves : (s : St) → s.kode ≡ k → Saves k (update_status env s)
  unfolding update_status
  update_status-Saves s e = Attempts-Saves s _ (env.retry_attempts (try_update_status env) s) e
