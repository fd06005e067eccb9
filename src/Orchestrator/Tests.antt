-- ===== src/Orchestrator/Tests.antt =====
-- A drone of src/orchestrator/mod.rs over an area of five by four metres, in cells of two metres.
use ruv_drone.Base.{
  ℕ, ◌≡◌, ◌≢◌, refl, arith, List, [], ◌∷◌, All, AllPairs, none, some, true, false, inl, nat_key,
}
use ruv_drone.Base.Fixed.{Fixed, fixed_float, fixed_geometry, fixed_widening}
use ruv_drone.Types.{DroneState, Position3D, at_rest, distance_to}
use ruv_drone.Failsafe
use ruv_drone.Failsafe.{emergency_diverge, nominal}
use ruv_drone.Planning.Grid.{cell_at, is_fresh, next_systematic_cell}
use ruv_drone.Planning.Grid.Beliefs
use ruv_drone.Planning.Strategy
use ruv_drone.Latentmesh.Policy.Gate.{observe_only}
use ruv_drone.Latentmesh.Protocol.Radio.{radio}
use ruv_drone.Latentmesh.Node.Endpoint.{VerifiedAdvisory}
use ruv_drone.Orchestrator.Node.{Settings, SwarmOrchestrator, new_demo}
use ruv_drone.Orchestrator.Step.{StepInputs, step}
use ruv_drone.Orchestrator.Safety.{HoldsMission, step-IsUnreadable, step-advisories}
use ruv_drone.Orchestrator.Cells.{IsLeft, run, run-IsLeft}
use ruv_drone.Orchestrator.Advisories.{AfterHeld, Supersedes, stored, stored-Supersedes}

abbrev settings : Settings Fixed Fixed
settings = record {
  area_width_m = some 5_000_000;
  area_height_m = some 4_000_000;
  grid_resolution_m = some 2_000_000;
  max_speed_ms = some 5_000_000;
  flight_altitude_m = some 30_000_000;
  confidence_threshold = some 500_000;
  convergence_threshold = some 700_000;
}

abbrev at : Fixed → Position3D Fixed
at x = record { x = x; y = some 0; z = some 0 }

abbrev drone : SwarmOrchestrator radio Fixed Fixed
unfolding new_demo Failsafe.new Beliefs.new Strategy.new
drone = new_demo 1 settings (at (some 1_000_000))

abbrev second : StepInputs Fixed Fixed
second = record {
  dt_secs = some 1_000_000;
  link_alive = true;
  scan_result = none;
  now_ns = 0;
  later_ns = 0;
}

last_column : IsLeft drone.config drone.probability_grid 2 0
unfolding new_demo drone Beliefs.new
last_column = record {
  fresh = refl;
  column = omega arith;
  row = omega arith;
  not_first = omega arith;
  beyond = omega arith;
}

run-IsLeft_example :
    (is_fresh (cell_at (run drone (second ∷ second ∷ [])).probability_grid.cells 2 0) ≡ true)
    × (next_systematic_cell (run drone (second ∷ second ∷ [])).probability_grid ≢ none)
run-IsLeft_example = run-IsLeft drone (second ∷ second ∷ []) 2 0 last_column

-- A peer with a position that is not a number.
abbrev peer : Fixed → DroneState Fixed Fixed
peer x = record {
  id = 2;
  position = at x;
  velocity = at_rest;
  heading_rad = some 0;
  altitude_agl_m = some 0;
  battery_pct = some 80_000_000;
  link_quality = some 900_000;
  timestamp_ms = 0;
}

abbrev poisoned : SwarmOrchestrator radio Fixed Fixed
poisoned = record drone { peer_states = (2, peer none) ∷ [] }

unreadable :
    fixed_float.is_finite (distance_to poisoned.state.position (peer none).position) ≡ false
unfolding distance_to drone new_demo
unreadable = refl

step-IsUnreadable_example :
    ((step poisoned second).1 ≡ emergency_diverge) × HoldsMission poisoned (step poisoned second).0
step-IsUnreadable_example = step-IsUnreadable poisoned second refl (inl unreadable)

-- Advisories of drone 2 at some epochs and sequences.
abbrev advisory : (epoch sequence : ℕ) → VerifiedAdvisory radio Fixed Fixed
advisory epoch sequence = record {
  received = record {
    snapshot = record { drone = peer (some 0); failsafe = nominal };
    metadata = record {
      source_id = 2;
      epoch = epoch;
      message_id = sequence;
      logical_sequence = sequence;
      wire_sequence = sequence;
      stream_id = 2;
      priority = 0;
      state_hash = 0;
      encoded_message_bytes = 6;
      fragment_count = 1;
      keyframe = true;
      learned_residuals = 0;
    };
  };
  security = record {
    authenticated = true;
    trusted_source = true;
    issued_at_ms = 1_000;
    expires_at_ms = 2_000;
    requested_authority = observe_only;
  };
}

step-advisories_example :
    step (record drone { latentmesh_advisories = (2, advisory 1 0) ∷ [] }) second ≡ (
      record ((step drone second).0) { latentmesh_advisories = (2, advisory 1 0) ∷ [] },
      (step drone second).1,
    )
step-advisories_example = step-advisories drone second ((2, advisory 1 0) ∷ [])

abbrev arrivals : List (VerifiedAdvisory radio Fixed Fixed)
arrivals = advisory 1 0 ∷ advisory 1 2 ∷ advisory 1 1 ∷ advisory 2 0 ∷ []

stored-Supersedes_example :
    AllPairs Supersedes (stored drone arrivals) × All (AfterHeld drone) (stored drone arrivals)
stored-Supersedes_example = stored-Supersedes drone arrivals
