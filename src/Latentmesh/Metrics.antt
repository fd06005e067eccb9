-- ===== src/Latentmesh/Metrics.antt =====
-- src/latentmesh/metrics.rs: the counters of a node. An operation is the atomic additions that it
-- makes, in their order.
pub mod Counters
pub mod Totals
mod Tests
