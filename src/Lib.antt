-- ===== src/Lib.antt =====
-- A verification library for the Kode operator, a Kubernetes operator that runs development
-- environments: a `Kode` object names a template, and the operator keeps a Secret, a Service, a
-- StatefulSet and a PersistentVolumeClaim for it.
--
-- How the program is put together. The controller of internal/controllers/kode is called with the name
-- of a Kode. `Reconcile` (reconciler.go) reads it, deals with deletion, the finalizer and a changed
-- generation, and hands the Kode to the state machine of internal/statemachine, which runs the
-- handler of the Kode's phase (handlers.go) and stores the phase that it returns. The handlers fetch the
-- template (internal/template), construct and compare the child resources, write them, check that
-- they are ready, and at the end have them deleted (internal/cleanup). Conditions are kept by
-- api/v1alpha2/condition.go. pkg/envoy makes the sidecars of an environment behind an EntryPoint. The
-- controller of internal/controllers/entrypoint acts on the Kodes that the first one has brought to phase Active: it
-- finds the EntryPoint that the Kode's template refers to, writes an HTTPRoute to the Kode's Service and, for
-- https, a SecurityPolicy, and puts the URL into the Kode's status, or phase Failed and the error.
--
-- Which file models which part:
--   Condition            api/v1alpha2/condition.go
--   Api, Api/Names       the types and names of api/v1alpha2
--   EntryPoint/Object    the methods of entrypoint_types.go
--   EntryPoint/Config    config.go and cleanup.go of internal/controllers/entrypoint, and its configuration in
--                        internal/common/types.go
--   EntryPoint/Routes    ensure_routes.go
--   EntryPoint/Reconcile reconciler.go and utils.go
--   Gateway              the objects of the gateway that the routes are made of
--   Common               internal/common/utils.go
--   Managers             internal/event, internal/resourcev1, and AddTypeInformationToObject of internal/common/utils.go
--   KodeObject           the methods of kode_types.go that talk to the API server
--   Objects              what the code reads and writes of the Kubernetes objects
--   StateMachine         internal/statemachine
--   Cleanup              internal/cleanup and internal/controllers/kode/cleanup.go
--   Template             internal/template
--   Validation           pkg/validation
--   Envoy                pkg/envoy and ensure_container_sidecars.go, with the structs of types.go in Envoy/Types
--   Kode/Config          config.go of internal/controllers/kode, as are the following
--   Kode/Checks          check_resources.go
--   Kode/StatefulSet     ensure_container_statefulset.go
--   Kode/Ensure          ensure_container_secret.go, ensure_container_service.go, ensure_container_pvc.go
--   Kode/Changes         configure_resources.go
--   Kode/Validate        validate_resources.go
--   Kode/Errors          utils.go
--   Kode/Handlers        handlers.go, a file for each group of phases
--   Kode/Reconcile       reconciler.go, and handleGenerationMismatch of utils.go
--   Startup              cmd/main.go, and SetupWithManager of both controllers
--   Scenarios            concrete runs
--   Go, Env              what the code uses of Go and of its surroundings
--   Env/Store            the objects that the calls so far have written, for an API server without other clients
--   Kode/Frame, Kode/Phases, Kode/Removals, Kode/Deletion, Kode/Release and Kode/Progress with their files, Kode/Retries, Kode/Readiness, Kode/Health,
--   Kode/Idempotence, Kode/Claims, Kode/Constructed, Kode/Current, Kode/Mutations, Kode/Labels,
--   EntryPoint/Lookup, EntryPoint/Frame, EntryPoint/Backed, EntryPoint/Safety, EntryPoint/Answers, EntryPoint/Urls, EntryPoint/Publishing,
--   EntryPoint/Pointers, Common/Masking, Common/Merging and the files Laws, Frame, Keeps, Ends, Succeeds, Children,
--   Template/Errors, Template/Cache, Template/Keys, Template/Named, KodeObject/Saved, Wiring, Startup/Order
--                        the proofs
--
-- How code corresponds to definitions. A Go function that reads or changes the Kode behind its pointer,
-- or talks to the API server, is a function of the state `St`: the Kode and the EntryPoint in memory, the template
-- manager's cache, and the trace of calls made so far. It returns or panics, and what it changed
-- before a panic stays. An error is a value, of which IsNotFound and IsConflict can be asked. The API
-- server is the record `Env`: its answer to each call is an argument of the model and may depend on all
-- the calls made before, so a theorem over every `Env` holds whatever the server answers; two reads with no call between them that can
-- change something are given the same answer. The library routines that call the program back (RetryOnConflict, ExponentialBackoff
-- and CreateOrPatch) are parameters too, with the runs of their function as a relation.
--
-- Bounds. The loops run over lists, the backoff's number of attempts is a parameter of its relation, the digits of a
-- number have its successor as fuel, which is more than they are, and numbers are unbounded where the code uses them as counters.
--
-- Not modelled: what the server changes in the status that it sends back after a patch, logging, contexts and their timeouts (a timeout is one of the answers), the texts of
-- events, owner references, the probes and resources that the code does not set, two reconciliations
-- that touch the template manager's map at the same time, generated code, the registration of types, and the states of an EntryPoint, which are
-- commented out in the source.
pub mod Prelude
pub mod Gateway
pub mod Go
pub mod Condition
pub mod Api
pub mod Objects
pub mod Envoy
pub mod EntryPoint
pub mod Env
pub mod KodeObject
pub mod StateMachine
pub mod Cleanup
pub mod Common
pub mod Template
pub mod Validation
pub mod Managers
pub mod Startup
pub mod Kode
pub mod Scenarios
