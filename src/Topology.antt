-- ===== src/Topology.antt =====
-- src/topology: consensus, gossip and the mesh view.
pub mod Gossip
pub mod Mesh
pub mod Raft
