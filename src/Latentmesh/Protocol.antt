-- ===== src/Latentmesh/Protocol.antt =====
-- src/latentmesh/protocol.rs: the receive session.
pub mod Types
pub mod Ingress
pub mod Admit
pub mod Session
pub mod Receive
pub mod Effects
pub mod Admitted
pub mod Progress
pub mod Reception
pub mod History
pub mod Limits
pub mod Rate
pub mod Flow
pub mod Intake
pub mod Throughput
pub mod Capacity
pub mod Expiry
pub mod Counting
pub mod Sources
pub mod Transmit
pub mod Sequence
pub mod Radio
mod Tests
