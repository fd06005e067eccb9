-- ===== src/Orchestrator.antt =====
-- src/orchestrator/mod.rs: the coordinator of one drone.
pub mod Node
pub mod Step
pub mod Advisories
pub mod Safety
pub mod Cells
mod Tests
