-- ===== src/Topology/Gossip.antt =====
-- src/topology/gossip.rs: versioned values that nodes pass on and merge. `shuffle` stands for the
-- random shuffle of the crate rand.
pub mod Merge
mod Tests
use ruv_drone.Base.{ℕ, ◌+◌, ◌&&◌, Bool, not, ltb, leb, ◌==◌, if◌then◌else◌, List, select, take, u64}

pub record GossipState (A : Type 0) : Type 0 where
  pub value : A
  pub version : ℕ
  pub origin : ℕ
  pub timestamp_ms : ℕ

module _ {A : Type 0} where
  unfoldable pub new : A → (origin timestamp_ms : ℕ) → GossipState A
  new value origin timestamp_ms = record {
    value = value;
    version = 1;
    origin = origin;
    timestamp_ms = timestamp_ms;
  }

  unfoldable pub merge : GossipState A → GossipState A → GossipState A
  merge a b =
      if ltb b.version a.version
      then a
      else if ltb a.version b.version
      then b
      else if leb b.origin a.origin
      then a
      else b

  unfoldable pub bump : GossipState A → GossipState A
  bump s = record s { version = u64 (s.version + 1) }

  unfoldable pub spread :
      (shuffle : List ℕ → List ℕ)
      → GossipState A
      → (fanout : ℕ) → (all_peers : List ℕ) → (local_id : ℕ) → List ℕ
  spread shuffle s fanout all_peers local_id =
      take fanout (shuffle (select (λ n. not (n == local_id) && not (n == s.origin)) all_peers))
