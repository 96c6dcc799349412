-- ===== src/Scenarios.antt =====
-- Concrete runs of the program.
mod World
mod Machine
mod Resources
mod Objects
mod Routes
mod Helpers
mod Progress
mod Startup
mod Departure
