-- ===== src/Checks.antt =====
-- internal/checks: local health checks.
pub mod Machine
pub mod Prober
pub mod Targets
pub mod Runner
pub mod Endpoints
