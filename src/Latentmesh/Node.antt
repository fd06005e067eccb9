-- ===== src/Latentmesh/Node.antt =====
-- src/latentmesh/node.rs: a vehicle's endpoint, made of the sessions, the policy and the metrics.
pub mod Endpoint
pub mod Observations
pub mod Accounts
pub mod Telemetry
mod Sample
mod Tests
mod Wire
