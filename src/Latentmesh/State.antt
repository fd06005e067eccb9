-- ===== src/Latentmesh/State.antt =====
-- src/latentmesh/state.rs: the canonical form of the telemetry that drones share.
pub mod Symbols
pub mod Schema
pub mod Ranges
pub mod Codec
pub mod Fields
pub mod RoundTrip
pub mod Domain
pub mod Accepted
pub mod Exact
mod Tests
