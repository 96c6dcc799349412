-- ===== src/Kode/Handlers.antt =====
-- The state handlers of handlers.go of internal/controllers/kode.
pub mod Create
pub mod Active
pub mod Updating
pub mod Deleting
pub mod Recovery
