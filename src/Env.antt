-- ===== src/Env.antt =====
-- What surrounds the operator: the API server behind the controller-runtime client, the event
-- recorder, the clock, and the library routines that call the program back.
--
-- The answer to each call is an argument of the model, and may depend on all the calls made before. So a theorem over every
-- `Env` holds whatever the API server answers. Two reads with no such call between them are given the same answer. Each call of the program that can
-- change something outside is written down, the latest first.
pub mod Frame
pub mod Store
use kode_operator.Prelude.{ℕ, suc, String, ◌≡◌, Bool, Option, none, some, List, [], ◌∷◌}
use kode_operator.Go.{Error, Reason, Result, Outcome, done, panic, Exec, ◌>>=◌, ◌>>◌, pure, modify}
use kode_operator.Api.{Kode, Template, ContainerTemplateSharedSpec, EntryPoint}
use kode_operator.Gateway.{HttpRoute, SecurityPolicy}
use kode_operator.Envoy.{Yaml}
use kode_operator.Objects.{
  Labels, Secret, Service, StatefulSet, PersistentVolumeClaim, Pod, Kind, Resource, Container,
  Volume,
}

pub data EventType : Type 0 where
  normal warning : EventType

pub data Call : Type 0 where
  -- `c.Status().Patch` of a Kode, with the status that is sent
  patch_status : Kode → Call
  -- `c.Update` of a Kode
  update : Kode → Call
  delete : Resource → Call
  -- `CreateOrPatch`: the name, the labels of the object that is handed to it and is created where there is none, and what the
  -- mutate function makes of the object that it is given
  put_secret : String → Labels → (Secret → Secret) → Call
  put_service : String → Labels → (Service → Service) → Call
  put_stateful_set : String → Labels → (StatefulSet → StatefulSet) → Call
  put_pvc : String → Call
  -- the two of an EntryPoint that change it
  patch_entry_point_status : EntryPoint → Call
  update_entry_point : EntryPoint → Call
  -- `CreateOrPatch` of an object whose mutate function only sets the owner: the object that it is handed, which it creates
  -- where there is none; where there is one, that one is read over it and stays
  put_http_route : HttpRoute → Call
  put_security_policy : SecurityPolicy → Call
  -- an event's type and reason
  event : EventType → String → Call

abbrev pub Trace : Type 0
Trace = List Call

-- `controllerutil.OperationResult`: `operation_other` is one of its two results on the status.
pub data OperationResult : Type 0 where
  operation_created operation_updated operation_none operation_other : OperationResult

-- The state of a reconciliation: the Kode behind the handlers' pointer, the template manager, and
-- the calls made so far. The EntryPoint is the one behind the pointer of the EntryPoint controller: the
-- controller of Kodes has none and does not read it.
pub record St : Type 0 where
  pub kode : Kode
  pub cache : List (String × Template)
  -- the variable `template` that the closure in Fetch captures
  pub fetched : Option Template
  pub entry_point : EntryPoint
  pub calls : Trace

abbrev pub M : Type 0 → Type 0
M A = Exec St A

-- The runs of `fn` that `retry.RetryOnConflict` makes: at least one, a further one only
-- after a conflict. It returns what the last run returned.
pub data Attempts (fn : M (Option Error)) : St → Outcome (Option Error) × St → Type 0 where
  last : (s : St) (r : Outcome (Option Error) × St) → fn s ≡ r → Attempts fn s r
  again :
      (s t : St) (r : Outcome (Option Error) × St) (message : String)
      → fn s ≡ (done (some (record { reason = Reason.conflict; message = message })), t)
      → Attempts fn t r
      → Attempts fn s r

-- The runs of its function that `wait.ExponentialBackoff` makes, at most `steps`: it stops at
-- `true`, with no error, or at the function's own error, and returns an error of its own if every run returned `false`.
pub data Backoff (fn : M (Result Bool)) : ℕ → St → Outcome (Option Error) × St → Type 0 where
  timeout : (s : St) (e : Error) → Backoff fn 0 s (done (some e), s)
  stop :
      (n : ℕ) (s t : St)
      → fn s ≡ (done (Result.ok Bool.true), t)
      → Backoff fn (suc n) s (done none, t)
  give_up :
      (n : ℕ) (s t : St) (e : Error)
      → fn s ≡ (done (Result.err e), t)
      → Backoff fn (suc n) s (done (some e), t)
  crash : (n : ℕ) (s t : St) → fn s ≡ (panic, t) → Backoff fn (suc n) s (panic, t)
  wait :
      (n : ℕ) (s t : St) (r : Outcome (Option Error) × St)
      → fn s ≡ (done (Result.ok Bool.false), t)
      → Backoff fn n t r
      → Backoff fn (suc n) s r

-- A run of `controllerutil.CreateOrPatch` on a claim with the mutate function `f`: it reads the object, calls `f` once
-- unless the read fails, and writes what `f` made, unless `f` fails.
pub data PutRun (f : PersistentVolumeClaim → M (Result PersistentVolumeClaim))
    : St → Outcome (Option Error) × St → Type 0 where
  refused : (s : St) (e : Error) → PutRun f s (done (some e), s)
  crash : (p : PersistentVolumeClaim) (s t : St) → f p s ≡ (panic, t) → PutRun f s (panic, t)
  fail :
      (p : PersistentVolumeClaim) (s t : St) (e : Error)
      → f p s ≡ (done (Result.err e), t)
      → PutRun f s (done (some e), t)
  write :
      (p q : PersistentVolumeClaim) (s t : St) (r : Option Error)
      → f p s ≡ (done (Result.ok q), t)
      → PutRun f s (done r, t)

-- `controllerutil.ContainsFinalizer`, `AddFinalizer` and `RemoveFinalizer`, on an object's list
pub record Finalizers : Type 0 where
  pub contains : List String → String → Bool
  pub add : List String → String → List String
  pub remove : List String → String → List String
  pub contains-add : (fs : List String) (f : String) → contains (add fs f) f ≡ Bool.true
  pub contains-remove : (fs : List String) (f : String) → contains (remove fs f) f ≡ Bool.false

pub record Env : Type 0 where
  pub get_kode : Trace → String → String → Result Kode
  -- The object that the server sends back is read into the version that is sent, which shares the conditions and the error
  -- with the Kode in memory. It is taken to have the status that was sent.
  pub patch_kode_status : Trace → Kode → Option Error
  pub update_kode : Trace → Kode → Option Error
  pub get_secret : Trace → String → String → Result Secret
  pub get_service : Trace → String → String → Result Service
  pub get_stateful_set : Trace → String → String → Result StatefulSet
  pub get_pvc : Trace → String → String → Result PersistentVolumeClaim
  pub list_pods : Trace → String → Labels → Result (List Pod)
  pub delete_object : Trace → Resource → Option Error
  pub put_object : Trace → Call → Option Error
  pub get_container_template : Trace → String → String → Result ContainerTemplateSharedSpec
  pub get_cluster_container_template : Trace → String → Result ContainerTemplateSharedSpec
  pub get_entry_point : Trace → String → String → Result EntryPoint
  pub patch_entry_point_status : Trace → EntryPoint → Option Error
  pub update_entry_point : Trace → EntryPoint → Result EntryPoint
  pub put_http_route : Trace → HttpRoute → Result OperationResult
  pub put_security_policy : Trace → SecurityPolicy → Result OperationResult
  pub now : Trace → ℕ
  -- the hexadecimal SHA-256 of the concatenation
  pub sha256 : List String → String
  -- `path.Join`
  pub path_join : String → String → String
  pub yaml : Yaml
  pub finalizers : Finalizers
  pub is_test_environment : Bool
  pub reconcile_interval : ℕ
  pub long_reconcile_interval : ℕ
  pub retry_on_conflict : M (Option Error) → M (Option Error)
  pub retry_attempts : (fn : M (Option Error)) (s : St) → Attempts fn s (retry_on_conflict fn s)
  pub create_or_patch_pvc :
      (PersistentVolumeClaim → M (Result PersistentVolumeClaim)) → M (Option Error)
  pub put_runs :
      (f : PersistentVolumeClaim → M (Result PersistentVolumeClaim)) (s : St)
      → PutRun f s (create_or_patch_pvc f s)
  pub exponential_backoff : ℕ → M (Result Bool) → M (Option Error)
  pub backoff_runs :
      (steps : ℕ) (fn : M (Result Bool)) (s : St)
      → Backoff fn steps s (exponential_backoff steps fn s)

abbrev pub note : Call → St → St
note c s = record s { calls = c ∷ s.calls }

-- An answer from the surroundings, with nothing changed.
unfoldable pub ask : {A : Type 0} → (Trace → A) → M A
ask f s = (done (f s.calls), s)

-- A call that is written down, and its answer.
unfoldable pub call : {A : Type 0} → Call → (Trace → A) → M A
call c f s = (done (f s.calls), note c s)

-- `er.Record(ctx, kode, type, reason, message)`: its result is dropped everywhere. The message is not modelled.
unfoldable pub record_event : EventType → String → M Unit
unfolding modify
record_event type reason = modify (note (event type reason))

unfoldable pub get : M Kode
get s = (done s.kode, s)

unfoldable pub change : (Kode → Kode) → M Unit
change f s = (done tt, record s { kode = f s.kode })

unfoldable pub get_entry_point : M EntryPoint
get_entry_point s = (done s.entry_point, s)

unfoldable pub change_entry_point : (EntryPoint → EntryPoint) → M Unit
change_entry_point f s = (done tt, record s { entry_point = f s.entry_point })
