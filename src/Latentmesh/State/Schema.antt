-- ===== src/Latentmesh/State/Schema.antt =====
-- The schema of src/latentmesh/state.rs: errors, field identifiers and fail-safe codes.
use Prim.Native.String.{String}
use ruv_drone.Base.{ℕ, ◌==◌, if◌then◌else◌, List, [], ◌∷◌, Result, ok, err}
use ruv_drone.Failsafe.{
  FailSafeState, autonomous_hold, controlled_descent, emergency_diverge, emergency_land,
  low_battery_warn, nominal, return_to_home,
}

pub data StateError (A : Type 0) : Type 0 where
  non_finite : String → StateError A
  out_of_range : (field minimum maximum : String) → StateError A
  missing_field wrong_type unknown_field : ℕ → StateError A
  unsupported_schema unknown_failsafe : ℕ → StateError A
  air : A → StateError A

abbrev pub field_schema_version : ℕ
field_schema_version = 1

abbrev pub field_node_id : ℕ
field_node_id = 16

abbrev pub field_position_north_m : ℕ
field_position_north_m = 256

abbrev pub field_position_east_m : ℕ
field_position_east_m = 257

abbrev pub field_position_down_m : ℕ
field_position_down_m = 258

abbrev pub field_velocity_north_mps : ℕ
field_velocity_north_mps = 512

abbrev pub field_velocity_east_mps : ℕ
field_velocity_east_mps = 513

abbrev pub field_velocity_down_mps : ℕ
field_velocity_down_mps = 514

abbrev pub field_heading_rad : ℕ
field_heading_rad = 768

abbrev pub field_altitude_agl_m : ℕ
field_altitude_agl_m = 769

abbrev pub field_battery_pct : ℕ
field_battery_pct = 1024

abbrev pub field_link_quality : ℕ
field_link_quality = 1025

abbrev pub field_timestamp_ms : ℕ
field_timestamp_ms = 1026

abbrev pub field_failsafe_state : ℕ
field_failsafe_state = 1027

abbrev pub critical_state_schema_version : ℕ
critical_state_schema_version = 1

abbrev pub required_fields : List ℕ
required_fields =
    field_schema_version ∷ field_node_id ∷ field_position_north_m ∷ field_position_east_m
    ∷ field_position_down_m ∷ field_velocity_north_mps ∷ field_velocity_east_mps
    ∷ field_velocity_down_mps ∷ field_heading_rad ∷ field_altitude_agl_m ∷ field_battery_pct
    ∷ field_link_quality ∷ field_timestamp_ms ∷ field_failsafe_state ∷ []

unfoldable pub failsafe_code : FailSafeState → ℕ
failsafe_code nominal = 0
failsafe_code autonomous_hold = 1
failsafe_code low_battery_warn = 2
failsafe_code return_to_home = 3
failsafe_code emergency_land = 4
failsafe_code emergency_diverge = 5
failsafe_code controlled_descent = 6

unfoldable pub failsafe_from_code : {A : Type 0} → ℕ → Result (StateError A) FailSafeState
failsafe_from_code code =
    if code == 0
    then ok nominal
    else if code == 1
    then ok autonomous_hold
    else if code == 2
    then ok low_battery_warn
    else if code == 3
    then ok return_to_home
    else if code == 4
    then ok emergency_land
    else if code == 5
    then ok emergency_diverge
    else if code == 6
    then ok controlled_descent
    else err (unknown_failsafe code)
