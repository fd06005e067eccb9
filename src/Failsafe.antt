-- ===== src/Failsafe.antt =====
-- src/failsafe/mod.rs: the fail-safe machine. `D` is `f64` and `B` is `f32`. An `Instant` is a
-- reading of the monotonic clock in nanoseconds: a tick reads it when the link is first lost, and
-- again for the time elapsed, so a tick is given both readings.
pub mod Decisions
pub mod Transitions
mod Tests
use ruv_drone.Base.{
  ℕ, ◌-◌, ◌||◌, Bool, true, false, not, if◌then◌else◌, List, [], ◌∷◌, Option, none, some,
}
use ruv_drone.Base.Float.{Float}
use ruv_drone.Types.{DroneState}

pub data FailSafeState : Type 0 where
  nominal autonomous_hold low_battery_warn return_to_home : FailSafeState
  emergency_land emergency_diverge controlled_descent : FailSafeState

abbrev pub is_hold : FailSafeState → Bool
is_hold autonomous_hold = true
is_hold _ = false

abbrev pub is_warn : FailSafeState → Bool
is_warn low_battery_warn = true
is_warn _ = false

pub record FailSafeMachine (D B : Type 0) : Type 0 where
  pub state : FailSafeState
  pub link_loss_start : Option ℕ
  pub link_loss_hold_secs : D
  pub link_loss_rth_secs : D
  pub battery_warn_pct : B
  pub battery_rth_pct : B
  pub collision_dist_m : D

-- The arguments of one `tick`, with the readings of the clock.
pub record Inputs (D B : Type 0) : Type 0 where
  pub drone : DroneState D B
  pub link_alive : Bool
  pub nearest_neighbor_dist : D
  pub now_ns : ℕ
  pub later_ns : ℕ

-- `get_or_insert_with(Instant::now)`.
abbrev pub start_or : Option ℕ → ℕ → ℕ
start_or none now = now
start_or (some t) now = t

module _ {D B : Type 0} ⦃d : Float D⦄ ⦃b : Float B⦄ where
  unfoldable pub new : FailSafeMachine D B
  new = record {
    state = nominal;
    link_loss_start = none;
    link_loss_hold_secs = d.decimal 30 1;
    link_loss_rth_secs = d.decimal 300 1;
    battery_warn_pct = b.decimal 200 1;
    battery_rth_pct = b.decimal 150 1;
    collision_dist_m = d.decimal 15 1;
  }

  unfoldable pub is_too_close : FailSafeMachine D B → D → Bool
  is_too_close m dist = not (d.is_finite dist) || d.lt dist m.collision_dist_m

  unfoldable pub on_link_lost : FailSafeMachine D B → ℕ → ℕ → FailSafeMachine D B
  on_link_lost m now later =
      let start = start_or m.link_loss_start now in
      let elapsed = d.of_nanos (later - start) in
      record m {
        link_loss_start = some start;
        state =
            if d.lt m.link_loss_rth_secs elapsed
            then return_to_home
            else if d.lt m.link_loss_hold_secs elapsed
            then autonomous_hold
            else m.state;
      }

  unfoldable pub on_link_alive : FailSafeMachine D B → FailSafeMachine D B
  on_link_alive m = record m {
    link_loss_start = none;
    state = if is_hold m.state then nominal else m.state;
  }

  unfoldable pub check_battery : FailSafeMachine D B → B → FailSafeMachine D B
  check_battery m battery =
      if not (b.is_finite battery) || b.le battery m.battery_rth_pct
      then record m { state = return_to_home }
      else if b.le battery m.battery_warn_pct
      then record m { state = low_battery_warn }
      else if is_warn m.state
      then record m { state = nominal }
      else m

  -- The state that `tick` returns is that of the new machine.
  unfoldable pub tick : FailSafeMachine D B → Inputs D B → FailSafeMachine D B
  unfolding is_too_close on_link_lost on_link_alive check_battery
  tick m i =
      if is_too_close m i.nearest_neighbor_dist
      then record m { state = emergency_diverge }
      else if not i.link_alive
      then on_link_lost m i.now_ns i.later_ns
      else check_battery (on_link_alive m) i.drone.battery_pct

  unfoldable pub force_land : FailSafeMachine D B → FailSafeMachine D B
  force_land m = record m { state = emergency_land }

  unfoldable pub run : FailSafeMachine D B → List (Inputs D B) → FailSafeMachine D B
  run m [] = m
  run m (i ∷ is) = run (tick m i) is
