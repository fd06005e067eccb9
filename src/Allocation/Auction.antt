-- ===== src/Allocation/Auction.antt =====
-- src/allocation/auction.rs. The maps are association lists, `D` stands for `f64` and `B` for
-- `f32`.
use ruv_drone.Base.{
  ℕ, List, [], ◌∷◌, ◌++◌, Option, none, some, Bool, true, false, map, nat_key, option_map,
  if◌then◌else◌,
}
use ruv_drone.Base.Float.{Float, Geometry, Widening, clamp}
use ruv_drone.Base.TreeMap
use ruv_drone.Base.TreeMap.{TreeMap, contains_key, get, insert, remove}
use ruv_drone.Types.{DroneState, SwarmTask, distance_to}
pub mod Awards
pub mod Resolved
mod Tests

pub record Bid (B : Type 0) : Type 0 where
  pub node_id : ℕ
  pub task_id : ℕ
  pub score : B

pub record AuctionAllocator (D B : Type 0) : Type 0 where
  pub pending_tasks : TreeMap ℕ (SwarmTask D B)
  pub bids : TreeMap ℕ (List (Bid B))
  pub timeout_ms : ℕ

-- `or_default` of an entry.
abbrev pub or_default : {A : Type 0} → Option (List A) → List A
or_default none = []
or_default (some bids) = bids

module _ {B : Type 0} ⦃b : Float B⦄ where
  -- `min_by` over the scores: the first of the least, where scores that do not compare are equal.
  abbrev pub min_by_score : Bid B → List (Bid B) → Bid B
  min_by_score best [] = best
  min_by_score best (bid ∷ bids) =
      min_by_score (if b.lt bid.score best.score then bid else best) bids

  abbrev pub best_of : Option (List (Bid B)) → Option (Bid B)
  best_of none = none
  best_of (some []) = none
  best_of (some (bid ∷ bids)) = some (min_by_score bid bids)

module _ {D B : Type 0} where
  unfoldable pub new : ℕ → AuctionAllocator D B
  new timeout_ms = record {
    pending_tasks = TreeMap.empty;
    bids = TreeMap.empty;
    timeout_ms = timeout_ms;
  }

  unfoldable pub announce_task : AuctionAllocator D B → SwarmTask D B → AuctionAllocator D B
  announce_task a task = record a {
    pending_tasks = insert task.id task a.pending_tasks;
    bids = insert task.id (or_default (get task.id a.bids)) a.bids;
  }

  unfoldable pub submit_bid : AuctionAllocator D B → Bid B → AuctionAllocator D B
  submit_bid a bid =
      if contains_key bid.task_id a.pending_tasks
      then record a {
        bids = insert bid.task_id (or_default (get bid.task_id a.bids) ++ bid ∷ []) a.bids;
      }
      else a

  -- A winner is written into the task, and the bids are dropped.
  abbrev pub assign :
      Option (SwarmTask D B) → ℕ → ℕ → TreeMap ℕ (SwarmTask D B) → TreeMap ℕ (SwarmTask D B)
  assign none task_id winner_id tasks = tasks
  assign (some task) task_id winner_id tasks =
      insert task_id (record task { assigned_to = some winner_id }) tasks

  abbrev pub award : AuctionAllocator D B → ℕ → ℕ → AuctionAllocator D B
  award a task_id winner_id = record a {
    pending_tasks = assign (get task_id a.pending_tasks) task_id winner_id a.pending_tasks;
    bids = remove task_id a.bids;
  }

  -- `for (tid, _) in &results`.
  abbrev pub remove_resolved : List (ℕ × ℕ) → TreeMap ℕ (SwarmTask D B) → TreeMap ℕ (SwarmTask D B)
  remove_resolved [] tasks = tasks
  remove_resolved ((tid, _) ∷ results) tasks = remove_resolved results (remove tid tasks)

  module _ ⦃b : Float B⦄ where
    -- The loop over the tasks, with its results.
    abbrev pub award_each : AuctionAllocator D B → List ℕ → AuctionAllocator D B × List (ℕ × ℕ)
    award_each a [] = (a, [])
    award_each a (task_id ∷ task_ids) = elim (best_of (get task_id a.bids)) [
      | none ↦ award_each a task_ids
      | some bid ↦
          let (c, results) = award_each (award a task_id bid.node_id) task_ids in
          (c, (task_id, bid.node_id) ∷ results)
    ]

    unfoldable pub resolve : AuctionAllocator D B → AuctionAllocator D B × List (ℕ × ℕ)
    resolve a =
        let (c, results) = award_each a (map (λ e. e.0) a.pending_tasks) in
        (record c { pending_tasks = remove_resolved results c.pending_tasks }, results)

-- The score that a node computes: the lower the better.
module _ {D B : Type 0} ⦃d : Float D⦄ ⦃b : Float B⦄ ⦃w : Widening B D⦄ ⦃g : Geometry D⦄ where
  unfoldable pub compute_bid_score : DroneState D B → SwarmTask D B → B
  unfolding distance_to
  compute_bid_score node task =
      let dist = w.narrow (distance_to node.position task.target) in
      let battery_penalty = b.div (b.sub (b.decimal 1000 1) node.battery_pct) (b.decimal 1000 1) in
      let link_penalty = b.sub (b.decimal 10 1) node.link_quality in
      let priority_bonus =
        b.sub (b.decimal 10 1) (clamp task.priority (b.decimal 0 1) (b.decimal 10 1)) in
      b.add
        (b.add (b.add (b.div dist (b.decimal 1000 1)) (b.mul battery_penalty (b.decimal 3 1)))
          (b.mul link_penalty (b.decimal 2 1)))
        (b.mul priority_bonus (b.decimal 1 1))
