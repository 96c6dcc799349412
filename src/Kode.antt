-- ===== src/Kode.antt =====
-- The Kode controller: internal/controllers/kode.
pub mod Config
pub mod Checks
pub mod StatefulSet
pub mod Ensure
pub mod Changes
pub mod Validate
pub mod Errors
pub mod Frame
pub mod Handlers
pub mod Reconcile
pub mod Phases
pub mod Deletion
pub mod Idempotence
pub mod Retries
pub mod Current
pub mod Mutations
pub mod Labels
pub mod Progress
pub mod Readiness
pub mod Health
pub mod Removals
pub mod Claims
pub mod Release
pub mod Constructed
