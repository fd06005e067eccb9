-- ===== src/Planning/Strategy.antt =====
-- src/planning/coverage.rs: the phases of a search and the targets that they give. The assignments
-- are a map, `D` stands for `f64` and `B` for `f32`.
use ruv_drone.Base.{ℕ, if◌then◌else◌, List, [], ◌∷◌, Option, none, some, nat_key, option_map}
use ruv_drone.Base.Float.{Float}
use ruv_drone.Base.TreeMap
use ruv_drone.Base.TreeMap.{TreeMap, get}
use ruv_drone.Types.{DroneState, GridCell, Position3D}
use ruv_drone.Planning.Grid.{ProbabilityGrid, next_systematic_cell}
use ruv_drone.Planning.Grid.Beliefs.{highest_priority_unscanned}

pub data Phase : Type 0 where
  systematic probabilistic_pursuit : Phase
  convergence : List ℕ → Phase

pub record CoverageStrategy (B : Type 0) : Type 0 where
  pub phase : Phase
  pub assignments : TreeMap ℕ (ℕ × ℕ)
  pub convergence_threshold : B

unfoldable pub new : {B : Type 0} → B → CoverageStrategy B
new convergence_threshold = record {
  phase = systematic;
  assignments = TreeMap.empty;
  convergence_threshold = convergence_threshold;
}

module _ {B : Type 0} ⦃b : Float B⦄ where
  abbrev pub max_in_row : B → List (GridCell B) → B
  max_in_row best [] = best
  max_in_row best (c ∷ row) = max_in_row (b.max best c.victim_probability) row

  abbrev pub max_in_rows : B → List (List (GridCell B)) → B
  max_in_rows best [] = best
  max_in_rows best (row ∷ rows) = max_in_rows (max_in_row best row) rows

  -- The next phase at a greatest probability.
  abbrev pub next_phase : B → B → Phase → Phase
  next_phase threshold max_p systematic =
      if b.le threshold max_p then probabilistic_pursuit else systematic
  next_phase threshold max_p probabilistic_pursuit =
      if b.le (b.decimal 9 1) max_p then convergence [] else probabilistic_pursuit
  next_phase threshold max_p (convergence drones) = convergence drones

module _ {D B : Type 0} ⦃b : Float B⦄ where
  unfoldable pub phase_transition : CoverageStrategy B → ProbabilityGrid D B → CoverageStrategy B
  phase_transition s g = record s {
    phase = next_phase s.convergence_threshold (max_in_rows (b.decimal 0 1) g.cells) s.phase;
  }

  unfoldable pub phase_transition_with_threshold :
      CoverageStrategy B → ProbabilityGrid D B → B → CoverageStrategy B
  unfolding phase_transition
  phase_transition_with_threshold s g threshold = phase_transition s g

-- The cell that a converging drone was given.
abbrev pub assigned : Phase → Option (ℕ × ℕ) → Option (ℕ × ℕ)
assigned (convergence _) cell = cell
assigned _ cell = none

abbrev pub first_of :
    {D : Type 0} → Option (Position3D D) → Option (Position3D D) → Position3D D → Position3D D
first_of (some p) _ r = p
first_of none (some q) r = q
first_of none none r = r

module _ {D : Type 0} ⦃d : Float D⦄ where
  abbrev pub corner : D → D → ℕ × ℕ → Position3D D
  corner r altitude (x, y) = record {
    x = d.mul (d.of_nat x) r;
    y = d.mul (d.of_nat y) r;
    z = d.neg altitude;
  }

  abbrev pub center : D → D → ℕ × ℕ → Position3D D
  center r z (x, y) = record {
    x = d.add (d.mul (d.of_nat x) r) (d.div r (d.decimal 2 0));
    y = d.add (d.mul (d.of_nat y) r) (d.div r (d.decimal 2 0));
    z = z;
  }

module _ {D B : Type 0} ⦃d : Float D⦄ ⦃b : Float B⦄ where
  unfoldable pub next_waypoint :
      CoverageStrategy B → ℕ → DroneState D B → ProbabilityGrid D B → D → Position3D D
  next_waypoint s node_id state g flight_altitude_m =
      first_of
        (option_map (corner g.cell_size_m flight_altitude_m)
          (assigned s.phase (get node_id s.assignments)))
        (option_map (corner g.cell_size_m flight_altitude_m) (highest_priority_unscanned g))
        state.position

  abbrev pub target_cell : Phase → ProbabilityGrid D B → Option (ℕ × ℕ)
  target_cell systematic g = next_systematic_cell g
  target_cell _ g = highest_priority_unscanned g

  unfoldable pub next_target :
      CoverageStrategy B → DroneState D B → ProbabilityGrid D B → Option (Position3D D)
  next_target s state g = option_map (center g.cell_size_m state.position.z) (target_cell s.phase g)

-- The order of the phases.
abbrev pub stage : Phase → ℕ
stage systematic = 0
stage probabilistic_pursuit = 1
stage (convergence _) = 2
