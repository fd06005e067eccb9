-- ===== src/Topology/Mesh.antt =====
-- src/topology/mesh.rs. The nodes are an association list, `D` stands for `f64` and `B` for `f32`.
-- The sort of the distances is a parameter: with a distance that is not a number their comparison
-- is no total order, and the standard library then promises no order and may panic.
use ruv_drone.Base.{
  ℕ, List, [], ◌∷◌, Option, none, some, Bool, true, false, not, map, nat_key, compare, Ordering,
  select, take, ◌==◌, if◌then◌else◌,
}
use ruv_drone.Base.Float.{Float, Geometry}
use ruv_drone.Base.Sort.{sort_by}
use ruv_drone.Base.TreeMap
use ruv_drone.Base.TreeMap.{TreeMap, get, insert, remove}
use ruv_drone.Types.{DroneState, distance_to}
pub mod Nearest
mod Tests

pub record MeshTopology (D B : Type 0) : Type 0 where
  pub nodes : TreeMap ℕ (DroneState D B)
  pub cluster_head : Option ℕ

-- `self.cluster_head == Some(*id)`.
abbrev pub is_node : Option ℕ → ℕ → Bool
is_node none id = false
is_node (some head) id = head == id

module _ {D B : Type 0} where
  unfoldable pub new : MeshTopology D B
  new = record { nodes = TreeMap.empty; cluster_head = none }

  unfoldable pub update_node : MeshTopology D B → DroneState D B → MeshTopology D B
  update_node t state = record t { nodes = insert state.id state t.nodes }

  unfoldable pub remove_node : MeshTopology D B → ℕ → MeshTopology D B
  remove_node t id = record {
    nodes = remove id t.nodes;
    cluster_head = if is_node t.cluster_head id then none else t.cluster_head;
  }

  unfoldable pub active_nodes : MeshTopology D B → List (DroneState D B)
  unfolding sort_by
  active_nodes t = sort_by (λ s u. compare s.id u.id) (map (λ e. e.1) t.nodes)

-- `partial_cmp`, with pairs that do not compare as equal.
module _ {D : Type 0} ⦃d : Float D⦄ where
  abbrev pub compare_distances : D × ℕ → D × ℕ → Ordering
  compare_distances (a, _) (b, _) =
      if d.lt a b then Ordering.lt else if d.lt b a then Ordering.gt else Ordering.eq

module _ {D B : Type 0} ⦃d : Float D⦄ ⦃g : Geometry D⦄ where
  -- The distances to the other nodes.
  abbrev pub distances : DroneState D B → ℕ → TreeMap ℕ (DroneState D B) → List (D × ℕ)
  distances origin from nodes =
      map (λ e. (distance_to origin.position e.1.position, e.0))
        (select (λ e. not (e.0 == from)) nodes)

  abbrev pub nearest_to :
      ((D × ℕ → D × ℕ → Ordering) → List (D × ℕ) → List (D × ℕ))
      → Option (DroneState D B)
      → ℕ
      → ℕ
      → TreeMap ℕ (DroneState D B)
      → List ℕ
  nearest_to sort none from k nodes = []
  nearest_to sort (some origin) from k nodes =
      map (λ p. p.1) (take k (sort compare_distances (distances origin from nodes)))

  unfoldable pub nearest_k :
      ((D × ℕ → D × ℕ → Ordering) → List (D × ℕ) → List (D × ℕ)) → MeshTopology D B → ℕ → ℕ → List ℕ
  unfolding distance_to
  nearest_k sort t from k = nearest_to sort (get from t.nodes) from k t.nodes
