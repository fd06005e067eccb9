-- ===== src/Failsafe/Tests.antt =====
-- Ticks of src/failsafe/mod.rs over millionths, and the theorems at concrete inputs.
use ruv_drone.Base.{
  ℕ, ◌+◌, ◌*◌, ◌≡◌, ◌≢◌, refl, true, false, Bool, [], ◌∷◌, ◌++◌, none, some, arith,
}
use ruv_drone.Base.Fixed.{Fixed, fixed_float}
use ruv_drone.Types.{DroneState}
use ruv_drone.Failsafe.{
  FailSafeMachine, Inputs, nominal, emergency_diverge, controlled_descent, emergency_land, new,
  tick, run, force_land,
}
use ruv_drone.Failsafe.Decisions.{settled, Escalates, run_healthy, run_lost}
use ruv_drone.Failsafe.Transitions.{run-no_descent, force_land-not_held}

abbrev machine : FailSafeMachine Fixed Fixed
unfolding new
machine = new

abbrev origin : DroneState Fixed Fixed
origin = record {
  id = 1;
  position = record { x = some 0; y = some 0; z = some 0 };
  velocity = record { vx = some 0; vy = some 0; vz = some 0 };
  heading_rad = some 0;
  altitude_agl_m = some 0;
  battery_pct = some 80_000_000;
  link_quality = some 1_000_000;
  timestamp_ms = 0;
}

-- Millionths of a per cent of battery, the link, millionths of a metre, and seconds of the clock.
abbrev reading : Fixed → Bool → Fixed → ℕ → Inputs Fixed Fixed
reading battery link dist s = record {
  drone = record origin { battery_pct = battery };
  link_alive = link;
  nearest_neighbor_dist = dist;
  now_ns = s * 1_000_000_000;
  later_ns = s * 1_000_000_000 + 500;
}

abbrev healthy : Inputs Fixed Fixed
healthy = reading (some 80_000_000) true (some 10_000_000) 1

abbrev near : Inputs Fixed Fixed
near = reading (some 80_000_000) true none 1

near_diverges : (tick machine near).state ≡ emergency_diverge
unfolding tick new
near_diverges = refl

abbrev diverged : FailSafeMachine Fixed Fixed
diverged = record machine { state = emergency_diverge }

run_healthy_example :
    run diverged (healthy ∷ healthy ∷ healthy ∷ [])
    ≡ (record diverged { state = settled diverged.state; link_loss_start = none })
unfolding new
run_healthy_example = run_healthy diverged healthy (healthy ∷ healthy ∷ []) (ground arith)

abbrev lost : ℕ → Inputs Fixed Fixed
lost s = reading (some 10_000_000) false (some 10_000_000) s

run_lost_example :
    let past = run machine (lost 1 ∷ lost 2 ∷ []) in
    let last = run machine (lost 1 ∷ (lost 2 ∷ []) ++ lost 6 ∷ []) in
    Escalates machine (lost 1).now_ns (lost 6) past.state last.state
    × (last.link_loss_start ≡ some (lost 1).now_ns)
unfolding new
run_lost_example =
    run_lost machine (lost 1) (lost 2 ∷ []) (lost 6) refl (ground arith) (ground arith)

run-no_descent_example :
    ((run (new {D = Fixed} {B = Fixed}) (near ∷ healthy ∷ lost 3 ∷ [])).state ≢ emergency_land)
    × ((run (new {D = Fixed} {B = Fixed}) (near ∷ healthy ∷ lost 3 ∷ [])).state
        ≢ controlled_descent)
run-no_descent_example = run-no_descent (near ∷ healthy ∷ lost 3 ∷ [])

abbrev low : Inputs Fixed Fixed
low = reading (some 18_000_000) true (some 10_000_000) 1

force_land-not_held_example :
    ((run (force_land machine) (healthy ∷ healthy ∷ [])).state ≡ emergency_land)
    × ((run (force_land machine) ((healthy ∷ healthy ∷ []) ++ low ∷ healthy ∷ [])).state ≡ nominal)
unfolding new
force_land-not_held_example =
    force_land-not_held machine (healthy ∷ healthy ∷ []) low healthy (ground arith) (ground arith)
      (ground arith)
