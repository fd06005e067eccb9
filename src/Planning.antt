-- ===== src/Planning.antt =====
-- src/planning: the search grid and the coverage strategy.
pub mod Grid
pub mod Strategy
