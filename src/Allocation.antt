-- ===== src/Allocation.antt =====
-- src/allocation: the auction of tasks.
pub mod Auction
