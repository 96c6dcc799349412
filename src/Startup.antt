-- ===== src/Startup.antt =====
-- The start of the operator: cmd/main.go, and the two SetupWithManager of internal/controllers. What a call of a library
-- answers is a parameter, and may depend on the calls made before it. The parts that the
-- reconcilers take over from the manager (client, scheme, log and the managers) are not modelled.
pub mod Order
use kode_operator.Prelude.{
  ℕ, ◌*◌, String, str_eq, Bool, true, false, not, Option, none, some, List, [], ◌∷◌, if◌then◌else◌,
}
use kode_operator.Go.{Error, Exec, ◌>>=◌, pure, if_err}

-- The variables that the flags set. Durations count nanoseconds.
pub record Flags : Type 0 where
  pub metrics_addr : String
  pub probe_addr : String
  pub enable_leader_election : Bool
  pub secure_metrics : Bool
  pub enable_http2 : Bool
  pub log_level : String
  pub reconcile_interval : ℕ
  pub long_reconcile_interval : ℕ

abbrev second : ℕ
second = 1000000000

-- What the flags say where they are not given.
abbrev pub default_flags : Flags
default_flags = record {
  metrics_addr = ":8080";
  probe_addr = ":8081";
  enable_leader_election = false;
  secure_metrics = false;
  enable_http2 = false;
  log_level = "info";
  reconcile_interval = 5 * second;
  long_reconcile_interval = 300 * second;
}

pub data LoggerConfig : Type 0 where
  production : LoggerConfig
  development : String → LoggerConfig

-- `tls.Config`, what the code sets of it
pub record TlsConfig : Type 0 where
  pub next_protos : List String

unfoldable pub disable_http2 : TlsConfig → TlsConfig
disable_http2 c = record { next_protos = "http/1.1" ∷ [] }

-- `ctrl.Options`
pub record ManagerOptions : Type 0 where
  pub metrics_bind_address : String
  pub secure_serving : Bool
  pub metrics_tls : List (TlsConfig → TlsConfig)
  pub webhook_tls : List (TlsConfig → TlsConfig)
  pub health_probe_bind_address : String
  pub leader_election : Bool
  pub leader_election_id : String

-- `KodeReconciler` and `EntryPointReconciler`, the fields that are not parts of the manager
pub record Reconciler : Type 0 where
  pub is_test_environment : Bool
  pub reconcile_interval : ℕ
  pub long_reconcile_interval : ℕ

-- What the builder of a controller is told.
pub record Controller : Type 0 where
  pub for_object : String
  pub owns : List String
  pub watches : List String
  pub max_concurrent_reconciles : ℕ
  pub reconciler : Reconciler

-- A call that can fail.
pub data Call : Type 0 where
  parse_level : String → Call
  build_logger : LoggerConfig → Call
  new_manager : ManagerOptions → Call
  complete : Controller → Call
  add_healthz_check add_readyz_check : String → Call
  start : Call

-- The calls made so far, the latest first.
abbrev pub Boot : Type 0
Boot = List Call

-- How main ends: it returns, or `os.Exit(1)`.
pub data Exit : Type 0 where
  returned exit_1 : Exit

pub record Platform : Type 0 where
  -- `os.Getenv("ENV")`
  pub environment : String
  -- GetConfigOrDie, which ends the process itself, is a part of the answer to `new_manager`.
  pub answer : Boot → Call → Option Error

-- `SetupWithManager` of the Kode controller and of the EntryPoint controller
unfoldable pub setup_kode : Reconciler → Controller
setup_kode r = record {
  for_object = "Kode";
  owns = [];
  watches = [];
  max_concurrent_reconciles = 2;
  reconciler = r;
}

unfoldable pub setup_entry_point : Reconciler → Controller
setup_entry_point r = record {
  for_object = "EntryPoint";
  owns = "HTTPRoute" ∷ "Gateway" ∷ [];
  watches = "Kode" ∷ [];
  max_concurrent_reconciles = 1;
  reconciler = r;
}

unfoldable pub tls_opts : Flags → List (TlsConfig → TlsConfig)
tls_opts flags = if not flags.enable_http2 then disable_http2 ∷ [] else []

unfoldable pub manager_options : Flags → ManagerOptions
unfolding tls_opts
manager_options flags = record {
  metrics_bind_address = flags.metrics_addr;
  secure_serving = flags.secure_metrics;
  metrics_tls = tls_opts flags;
  webhook_tls = tls_opts flags;
  health_probe_bind_address = flags.probe_addr;
  leader_election = flags.enable_leader_election;
  leader_election_id = "8d0abd8d.jacero.io";
}

-- The reconcilers that main makes. The intervals of the second stay zero.
unfoldable pub kode_reconciler : Flags → Reconciler
kode_reconciler flags = record {
  is_test_environment = false;
  reconcile_interval = flags.reconcile_interval;
  long_reconcile_interval = flags.long_reconcile_interval;
}

abbrev pub entry_point_reconciler : Reconciler
entry_point_reconciler = record {
  is_test_environment = false;
  reconcile_interval = 0;
  long_reconcile_interval = 0;
}

module _ (p : Platform) where
  -- The call, and its answer.
  unfoldable pub attempt : Call → Exec Boot (Option Error)
  attempt c s = (kode_operator.Go.done (p.answer s c), c ∷ s)

  -- `if err := …; err != nil { setupLog.Error(…); os.Exit(1) }`
  unfoldable pub or_exit : Call → Exec Boot Exit → Exec Boot Exit
  unfolding attempt
  or_exit c rest = do e ← attempt c; if_err e (λ e. pure exit_1) rest

  -- The part of main after the logger is set.
  unfoldable pub run_manager : Flags → Exec Boot Exit
  unfolding or_exit manager_options setup_kode setup_entry_point kode_reconciler
  run_manager flags = or_exit (new_manager (manager_options flags)) (
      or_exit (complete (setup_kode (kode_reconciler flags))) (
        or_exit (complete (setup_entry_point entry_point_reconciler)) (
          or_exit (add_healthz_check "healthz")
            (or_exit (add_readyz_check "readyz") (or_exit start (pure returned))))))

  unfoldable pub main : Flags → Exec Boot Exit
  unfolding or_exit run_manager
  main flags =
      if str_eq p.environment "production"
      then or_exit (build_logger production) (run_manager flags)
      else or_exit (parse_level flags.log_level)
          (or_exit (build_logger (development flags.log_level)) (run_manager flags))
