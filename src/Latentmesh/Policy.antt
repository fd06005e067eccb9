-- ===== src/Latentmesh/Policy.antt =====
-- src/latentmesh/policy.rs: admission of actions and delivery of messages.
pub mod Gate
pub mod Admission
pub mod Traffic
pub mod Delivery
pub mod Treatment
pub mod Plans
pub mod Schedule
pub mod Sample
mod Tests
