-- ===== src/Topology/Gossip/Tests.antt =====
-- Runs of src/topology/gossip.rs.
use ruv_drone.Base.{ℕ, ◌≡◌, ◌⊎◌, List, [], ◌∷◌, All, Any}
use ruv_drone.Topology.Gossip.{GossipState, merge}
use ruv_drone.Topology.Gossip.Merge.{
  Agree, NotOlder, merge-semilattice, merge_all, merge_all-NotOlder,
}

abbrev state : ℕ → ℕ → ℕ → GossipState ℕ
state value version origin = record {
  value = value;
  version = version;
  origin = origin;
  timestamp_ms = 0;
}

merge-semilattice_example :
    let a = state 10 3 5 in
    let b = state 20 3 2 in
    let c = state 30 4 1 in
    ((merge a b ≡ a) ⊎ (merge a b ≡ b))
    × (NotOlder a (merge a b) × NotOlder b (merge a b))
    × (merge (merge a b) c ≡ merge a (merge b c))
    × (merge a a ≡ a)
    × (Agree a b → merge a b ≡ merge b a)
merge-semilattice_example = merge-semilattice (state 10 3 5) (state 20 3 2) (state 30 4 1)

abbrev heard : List (GossipState ℕ)
heard = state 20 3 2 ∷ state 30 4 1 ∷ state 40 2 9 ∷ []

merge_all-NotOlder_example :
    NotOlder (state 10 3 5) (merge_all (state 10 3 5) heard)
    × All (λ x. NotOlder x (merge_all (state 10 3 5) heard)) heard
    × ((merge_all (state 10 3 5) heard ≡ state 10 3 5)
        ⊎ Any (λ x. merge_all (state 10 3 5) heard ≡ x) heard)
merge_all-NotOlder_example = merge_all-NotOlder (state 10 3 5) heard
