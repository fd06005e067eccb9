-- ===== src/Latentmesh.antt =====
-- src/latentmesh: the authenticated advisory data plane.
pub mod Air
pub mod State
pub mod Metrics
pub mod Node
pub mod Policy
pub mod Protocol
