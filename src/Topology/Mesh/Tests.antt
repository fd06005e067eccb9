-- ===== src/Topology/Mesh/Tests.antt =====
-- Three nodes in a row, as in the test of src/topology/mesh.rs.
use ruv_drone.Base.{ℕ, List, [], ◌∷◌, some, map, nat_key, ◌≡◌, ◌≢◌, refl, AllPairs, true, take, All}
use mathlib.Core.List.{Perm}
use ruv_drone.Base.Fixed.{Fixed, Fixed-IsOrdered, fixed_float, fixed_geometry}
use ruv_drone.Base.Sort.{insert_by, sort_by, sort_by-Sorts}
use ruv_drone.Base.TreeMap.{get, insert}
use ruv_drone.Types.{DroneState, at_rest, distance_to}
use ruv_drone.Topology.Mesh.{MeshTopology, distances, nearest_k, new, update_node}
use ruv_drone.Topology.Mesh.Nearest.{nearest_k-IsSorted}

abbrev node : ℕ → ℕ → DroneState Fixed Fixed
node id x = record {
  id = id;
  position = record { x = some x; y = some 0; z = some 0 };
  velocity = at_rest;
  heading_rad = some 0;
  altitude_agl_m = some 0;
  battery_pct = some 100_000_000;
  link_quality = some 1_000_000;
  timestamp_ms = 0;
}

unfoldable mesh : MeshTopology Fixed Fixed
unfolding new update_node insert
mesh =
    update_node (update_node (update_node new (node 0 20_000_000)) (node 1 10_000_000))
      (node 2 5_000_000)

nearest_first : nearest_k sort_by mesh 0 1 ≡ 1 ∷ []
unfolding nearest_k mesh new update_node insert get sort_by insert_by distance_to
nearest_first = refl

known : get 0 mesh.nodes ≡ some (node 0 20_000_000)
unfolding mesh new update_node insert get
known = refl

numbers : All (λ p. fixed_float.le p.0 p.0 ≡ true) (distances (node 0 20_000_000) 0 mesh.nodes)
unfolding mesh new update_node insert distance_to
numbers = (refl, (refl, tt))

nearest_k-IsSorted_example :
    (all : List (Fixed × ℕ)) × Perm all (distances (node 0 20_000_000) 0 mesh.nodes)
    × AllPairs (λ p q. fixed_float.le p.0 q.0 ≡ true) all
    × (nearest_k sort_by mesh 0 1 ≡ map (λ p. p.1) (take 1 all))
    × All (λ id. id ≢ 0) (nearest_k sort_by mesh 0 1)
nearest_k-IsSorted_example =
    nearest_k-IsSorted Fixed-IsOrdered sort_by mesh 0 1 (node 0 20_000_000)
      (sort_by-Sorts (Fixed × ℕ)) known numbers
