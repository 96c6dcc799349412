-- ===== src/Env/Frame.antt =====
-- What the calls of the surroundings keep.
use kode_operator.Prelude.{ℕ, String, ◌≡◌, subst, Bool, Option}
use kode_operator.Go.{Error, Result, Outcome, ◌>>=◌}
use kode_operator.Go.Keeps.{Keeps}
use kode_operator.Go.Ends.{Ends}
use kode_operator.Objects.{PersistentVolumeClaim}
use kode_operator.Api.{Kode, EntryPoint}
use kode_operator.Env.{
  Env, St, M, Trace, Call, EventType, event, Attempts, Backoff, PutRun, note, ask, call,
  record_event, get, change, get_entry_point, change_entry_point,
}

module _ {A : Type 0} {P : St → Type 0} where
  pub Keeps-ask : (f : Trace → A) → Keeps P (ask f)
  unfolding ask
  Keeps-ask f = record { at = λ s h. h }

  pub Keeps-call : (c : Call) (f : Trace → A) → ((s : St) → P s → P (note c s)) → Keeps P (call c f)
  unfolding call
  Keeps-call c f h = record { at = h }

along : (P : St → Type 0) {A : Type 0} {x y : Outcome A × St} → x ≡ y → P x.1 → P y.1
along P e h = subst (λ z. P z.1) e h

module _ {P : St → Type 0} where
  pub Keeps-get : Keeps P get
  unfolding get
  Keeps-get = record { at = λ s h. h }

  pub Keeps-change :
      (f : Kode → Kode) → ((s : St) → P s → P (record s { kode = f s.kode })) → Keeps P (change f)
  unfolding change
  Keeps-change f h = record { at = h }

  pub Keeps-get_entry_point : Keeps P get_entry_point
  unfolding get_entry_point
  Keeps-get_entry_point = record { at = λ s h. h }

  pub Keeps-change_entry_point :
      (f : EntryPoint → EntryPoint)
      → ((s : St) → P s → P (record s { entry_point = f s.entry_point }))
      → Keeps P (change_entry_point f)
  unfolding change_entry_point
  Keeps-change_entry_point f h = record { at = h }

  pub Keeps-record_event :
      (type : EventType) (reason : String)
      → ((s : St) → P s → P (note (event type reason) s))
      → Keeps P (record_event type reason)
  unfolding record_event
  Keeps-record_event type reason h = record { at = h }

  -- The rest of a block that reads the Kode may use what is known of it.
  pub Keeps-get_bind :
      {A : Type 0} (f : Kode → M A) → ((s : St) → P s → Keeps P (f s.kode)) → Keeps P (get >>= f)
  unfolding get ◌>>=◌
  Keeps-get_bind f k = record { at = λ s h. (k s h).at s h }

  pub Ends-get_bind :
      {A : Type 0} {Q : A → Type 0} (f : Kode → M A)
      → ((s : St) → P s → Ends P Q (f s.kode))
      → Ends P Q (get >>= f)
  unfolding get ◌>>=◌
  Ends-get_bind f k = record { at = λ s h. (k s h).at s h }

  Attempts-keeps :
      (fn : M (Option Error))
      → Keeps P fn
      → {s : St} {r : Outcome (Option Error) × St} → Attempts fn s r
      → P s
      → P r.1
  Attempts-keeps fn k (Attempts.last s r e) h = along P e (k.at s h)
  Attempts-keeps fn k (Attempts.again s t r message e rest) h =
      Attempts-keeps fn k rest (along P e (k.at s h))

  Backoff-keeps :
      (fn : M (Result Bool))
      → Keeps P fn
      → {n : ℕ} {s : St} {r : Outcome (Option Error) × St} → Backoff fn n s r
      → P s
      → P r.1
  Backoff-keeps fn k (Backoff.timeout s e) h = h
  Backoff-keeps fn k (Backoff.stop n s t e) h = along P e (k.at s h)
  Backoff-keeps fn k (Backoff.give_up n s t x e) h = along P e (k.at s h)
  Backoff-keeps fn k (Backoff.crash n s t e) h = along P e (k.at s h)
  Backoff-keeps fn k (Backoff.wait n s t r e rest) h =
      Backoff-keeps fn k rest (along P e (k.at s h))

  PutRun-keeps :
      (f : PersistentVolumeClaim → M (Result PersistentVolumeClaim))
      → ((p : PersistentVolumeClaim) → Keeps P (f p))
      → {s : St} {r : Outcome (Option Error) × St} → PutRun f s r
      → P s
      → P r.1
  PutRun-keeps f k (PutRun.refused s e) h = h
  PutRun-keeps f k (PutRun.crash p s t e) h = along P e ((k p).at s h)
  PutRun-keeps f k (PutRun.fail p s t x e) h = along P e ((k p).at s h)
  PutRun-keeps f k (PutRun.write p q s t r e) h = along P e ((k p).at s h)

module _ (env : Env) {P : St → Type 0} where
  pub Keeps-retry : (fn : M (Option Error)) → Keeps P fn → Keeps P (env.retry_on_conflict fn)
  Keeps-retry fn k = record { at = λ s h. Attempts-keeps fn k (env.retry_attempts fn s) h }

  pub Keeps-backoff :
      (n : ℕ) (fn : M (Result Bool)) → Keeps P fn → Keeps P (env.exponential_backoff n fn)
  Keeps-backoff n fn k = record { at = λ s h. Backoff-keeps fn k (env.backoff_runs n fn s) h }

  pub Keeps-put :
      (f : PersistentVolumeClaim → M (Result PersistentVolumeClaim))
      → ((p : PersistentVolumeClaim) → Keeps P (f p))
      → Keeps P (env.create_or_patch_pvc f)
  Keeps-put f k = record { at = λ s h. PutRun-keeps f k (env.put_runs f s) h }

pub ruleset env_rules = (
  Keeps-ask, Keeps-call, Keeps-get, Keeps-change, Keeps-record_event, Keeps-retry, Keeps-backoff,
  Keeps-put, Keeps-get_entry_point, Keeps-change_entry_point,
)
