-- ===== src/Orchestrator/Step.antt =====
-- A simulation step of src/orchestrator/mod.rs. What the payload's scan returns and the clock are
-- arguments; the counters wrap.
use ruv_drone.Base.{
  ℕ, ◌+◌, Bool, true, not, ◌&&◌, if◌then◌else◌, [], ◌∷◌, Option, none, some, min, u32, u64,
  saturating_sub, nat_key,
}
use ruv_drone.Base.Float.{Float, Geometry, Widening}
use ruv_drone.Base.TreeMap.{TreeMap}
use ruv_drone.Types.{CsiDetection, DroneState, Position3D, at_rest, distance_to}
use ruv_drone.Failsafe.{FailSafeState, Inputs, is_warn, tick}
use ruv_drone.Planning.Grid.{ProbabilityGrid, mark_scanned}
use ruv_drone.Planning.Grid.Beliefs.{coverage_pct, update_bayesian}
use ruv_drone.Planning.Strategy.{next_target, phase_transition}
use ruv_drone.Latentmesh.Air.{Air}
use ruv_drone.Orchestrator.Node.{Settings, SwarmOrchestrator, is_nominal}

module _ {D B : Type 0} ⦃d : Float D⦄ ⦃g : Geometry D⦄ where
  -- The `try_fold` over the peers: an unreadable distance stops it.
  abbrev pub nearest_of : Position3D D → D → TreeMap ℕ (DroneState D B) → D
  nearest_of here nearest [] = nearest
  nearest_of here nearest ((id, peer) ∷ peers) =
      let rest = nearest_of here (d.min nearest (distance_to here peer.position)) peers in
      if d.is_finite (distance_to here peer.position) then rest else g.nan

  unfoldable pub pos_to_cell : Settings D B → Position3D D → ℕ × ℕ
  pos_to_cell c pos =
      let r = c.grid_resolution_m in
      let w = g.to_u32 (d.div c.area_width_m r) in
      let h = g.to_u32 (d.div c.area_height_m r) in
      let xi = g.to_u32 (d.max (d.div pos.x r) (d.decimal 0 0)) in
      let yi = g.to_u32 (d.max (d.div pos.y r) (d.decimal 0 0)) in
      (min xi (saturating_sub w 1), min yi (saturating_sub h 1))

  -- The new state of a drone that steers toward a target.
  unfoldable pub move_toward : D → DroneState D B → Position3D D → D → DroneState D B
  move_toward max_speed_ms state target dt_secs =
      let dx = d.sub target.x state.position.x in
      let dy = d.sub target.y state.position.y in
      let dist = g.sqrt (d.add (d.mul dx dx) (d.mul dy dy)) in
      let speed = d.min max_speed_ms (d.div dist dt_secs) in
      let vx = d.mul (d.div dx dist) speed in
      let vy = d.mul (d.div dy dist) speed in
      if d.lt dist (d.decimal 5 1) then record state { velocity = at_rest } else record state {
        position = record (state.position) {
          x = d.add state.position.x (d.mul vx dt_secs);
          y = d.add state.position.y (d.mul vy dt_secs);
        };
        velocity = record { vx = vx; vy = vy; vz = d.decimal 0 1 };
        heading_rad = g.atan2 vy vx;
      }

module _ {a : Air} {D B : Type 0} ⦃d : Float D⦄ ⦃g : Geometry D⦄ where
  unfoldable pub nearest_peer_distance : SwarmOrchestrator a D B → D
  nearest_peer_distance o = nearest_of o.state.position g.max_value o.peer_states

-- The arguments of a step, the reading of the payload and those of the clock.
pub record StepInputs (D B : Type 0) : Type 0 where
  pub dt_secs : D
  pub link_alive : Bool
  pub scan_result : Option (CsiDetection D B)
  pub now_ns : ℕ
  pub later_ns : ℕ

-- `fs_state != Nominal && fs_state != LowBatteryWarn`.
abbrev pub takes_over : FailSafeState → Bool
takes_over s = not (is_nominal s) && not (is_warn s)

module _ {D B : Type 0} ⦃d : Float D⦄ ⦃b : Float B⦄ ⦃w : Widening B D⦄ ⦃g : Geometry D⦄ where
  -- 3: a confident detection of a victim raises the belief in its cell.
  abbrev pub sight :
      Settings D B → Option (CsiDetection D B) → ProbabilityGrid D B → ProbabilityGrid D B
  sight c none grid = grid
  sight c (some detection) grid =
      if b.le c.confidence_threshold detection.confidence
      then elim detection.victim_position [
        | none ↦ grid
        | some victim ↦ update_bayesian grid (pos_to_cell c victim) detection.confidence true
      ]
      else grid

  -- 6 and 7: the way to the next target, the battery and the time.
  abbrev pub steer : Settings D B → Option (Position3D D) → DroneState D B → D → DroneState D B
  steer c none state dt_secs = state
  steer c (some target) state dt_secs = move_toward c.max_speed_ms state target dt_secs

  abbrev pub drain : DroneState D B → D → DroneState D B
  drain state dt_secs = record state {
    battery_pct =
        b.max (b.sub state.battery_pct (w.narrow (d.div dt_secs (d.decimal 300 1))))
          (b.decimal 0 1);
    timestamp_ms = u64 (state.timestamp_ms + d.to_u64 (d.mul dt_secs (d.decimal 1000 0)));
  }

module _ {a : Air} {D B : Type 0} ⦃d : Float D⦄ ⦃b : Float B⦄ ⦃w : Widening B D⦄
    ⦃g : Geometry D⦄ where
  -- The head of a step: statistics, and the detections of the last cycle dropped.
  abbrev pub begin_step : SwarmOrchestrator a D B → D → SwarmOrchestrator a D B
  begin_step o dt_secs = record o {
    peer_detections = [];
    stats = record (o.stats) {
      steps = u64 (o.stats.steps + 1);
      elapsed_secs = d.add o.stats.elapsed_secs dt_secs;
    };
  }

  abbrev pub safety_inputs : SwarmOrchestrator a D B → StepInputs D B → Inputs D B
  safety_inputs o i = record {
    drone = o.state;
    link_alive = i.link_alive;
    nearest_neighbor_dist = nearest_peer_distance o;
    now_ns = i.now_ns;
    later_ns = i.later_ns;
  }

  -- 4 and 5: the current cell is scanned, and the phase follows the grid.
  abbrev pub survey : SwarmOrchestrator a D B → Option (CsiDetection D B) → SwarmOrchestrator a D B
  survey o scan_result =
      let (grid, was_new) =
        mark_scanned (sight o.config scan_result o.probability_grid)
          (pos_to_cell o.config o.state.position) in
      record o {
        probability_grid = grid;
        stats = record (o.stats) {
          cells_covered =
              if was_new then u32 (o.stats.cells_covered + 1) else o.stats.cells_covered;
        };
        coverage = phase_transition o.coverage grid;
      }

  unfoldable pub fly_mission : SwarmOrchestrator a D B → StepInputs D B → SwarmOrchestrator a D B
  unfolding pos_to_cell update_bayesian mark_scanned phase_transition next_target move_toward
  fly_mission o i =
      let surveyed = survey o i.scan_result in
      record surveyed {
        state =
            drain
              (steer o.config (next_target surveyed.coverage o.state surveyed.probability_grid)
                o.state i.dt_secs)
              i.dt_secs;
      }

  unfoldable pub step :
      SwarmOrchestrator a D B → StepInputs D B → SwarmOrchestrator a D B × FailSafeState
  unfolding nearest_peer_distance tick fly_mission
  step o i =
      let begun = begin_step o i.dt_secs in
      let machine = tick o.failsafe (safety_inputs begun i) in
      let guarded = record begun { failsafe = machine } in
      (if takes_over machine.state then guarded else fly_mission guarded i, machine.state)

  unfoldable pub is_mission_complete : SwarmOrchestrator a D B → Bool
  is_mission_complete o = d.lt (d.decimal 95 2) (coverage_pct o.probability_grid)
