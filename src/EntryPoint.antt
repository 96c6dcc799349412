-- ===== src/EntryPoint.antt =====
-- The EntryPoint controller: internal/controllers/entrypoint, and the methods of an EntryPoint in
-- api/v1alpha2/entrypoint_types.go. It gives an active Kode its route through a gateway and its URL.
pub mod Object
pub mod Config
pub mod Routes
pub mod Reconcile
pub mod Lookup
pub mod Frame
pub mod Backed
pub mod Safety
pub mod Answers
pub mod Urls
pub mod Publishing
pub mod Pointers
