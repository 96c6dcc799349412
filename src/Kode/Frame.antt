-- ===== src/Kode/Frame.antt =====
-- What the working parts of a handler may do: the calls that they make, and the changes that they
-- make to the Kode in memory. A predicate that these keep is kept by each of them.
pub mod Reads
pub mod Writes
pub mod Handlers
pub mod Machine
use kode_operator.Prelude.{ℕ, String, Option, none, some, List}
use kode_operator.Condition.{ConditionType, ConditionStatus}
use kode_operator.Condition
use kode_operator.Api.{Kode, KodeStatus, Template, Runtime}
use kode_operator.Objects.{Labels, Secret, Service, StatefulSet, Resource, Kind}
use kode_operator.Env.{
  St, Call, EventType, patch_status, delete, put_secret, put_service, put_stateful_set, put_pvc,
  event, note,
}
use kode_operator.KodeObject.{set_status}
use kode_operator.Kode.Ensure.{set_credentials}

-- The calls that do not release or delete a child resource. A pod may be deleted.
pub data Minor : Call → Type 0 where
  patches : (k : Kode) → Minor (patch_status k)
  secrets : (n : String) (l : Labels) (f : Secret → Secret) → Minor (put_secret n l f)
  services : (n : String) (l : Labels) (f : Service → Service) → Minor (put_service n l f)
  stateful_sets :
      (n : String) (l : Labels) (f : StatefulSet → StatefulSet) → Minor (put_stateful_set n l f)
  claims : (n : String) → Minor (put_pvc n)
  pods : (n ns : String) → Minor (delete (record { kind = Kind.pod; name = n; namespace = ns }))
  events : (t : EventType) (reason : String) → Minor (event t reason)

pub data Edit : Type 0 where
  to_runtime : Runtime → Edit
  to_credentials : String × String → Edit
  to_error : Option String → Option ℕ → Edit
  to_condition : ℕ → ConditionType → ConditionStatus → String → String → Edit

abbrev pub edit_status : Edit → KodeStatus → KodeStatus
edit_status (to_runtime r) s = record s { runtime = some r }
edit_status (to_credentials c) s = s
edit_status (to_error e t) s = record s { last_error = e; last_error_time = t }
edit_status (to_condition now t status reason message) s = record s {
  conditions = Condition.set_condition now t status reason message s.conditions;
}

abbrev pub edit : Edit → Kode → Kode
edit (to_credentials c) k = set_credentials c k
edit e k = set_status (edit_status e) k

pub record Stable (P : St → Type 0) : Type 0 where
  pub calling : (c : Call) (s : St) → Minor c → P s → P (note c s)
  pub editing : (e : Edit) (s : St) → P s → P (record s { kode = edit e s.kode })
  pub caching :
      (cache : List (String × Template)) (fetched : Option Template) (s : St)
      → P s
      → P (record s { cache = cache; fetched = fetched })

-- The numbers of the status that the handlers set.
pub data Count : Type 0 where
  to_port to_generation to_retry to_cycle : ℕ → Count

abbrev pub count_status : Count → KodeStatus → KodeStatus
count_status (to_port n) s = record s { kode_port = n }
count_status (to_generation n) s = record s { observed_generation = n }
count_status (to_retry n) s = record s { retry_count = n }
count_status (to_cycle n) s = record s { deletion_cycle = n }

-- What all the handlers keep that neither delete nor set the phase.
pub record Calm (P : St → Type 0) : Type 0 where
  pub stable : Stable P
  pub counting :
      (c : Count) (s : St) → P s → P (record s { kode = set_status (count_status c) s.kode })
