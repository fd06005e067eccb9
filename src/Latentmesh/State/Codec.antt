-- ===== src/Latentmesh/State/Codec.antt =====
-- The conversions of src/latentmesh/state.rs. `y` stands for `CriticalState`, `A` for its errors,
-- `D` for `f64` and `B` for `f32`.
use Prim.Native.String.{String}
use ruv_drone.Base.{
  ℕ, Bool, not, ltb, ◌==◌, Option, none, some, is_some, Result, ok, err, ◌>>=◌, ◌>>◌, reject_if,
  ok_or, contains, find_not, u32_max,
}
use ruv_drone.Base.Float.{Float, in_range, Widening}
use ruv_drone.Types.{DroneState}
use ruv_drone.Failsafe.{FailSafeState}
use ruv_drone.Latentmesh.Protocol.Types.{AdvisoryPeerSnapshot}
use ruv_drone.Latentmesh.State.Symbols.{Rounding, Symbols}
use ruv_drone.Latentmesh.State.Schema.{
  StateError, air, missing_field, wrong_type, unknown_field, out_of_range, unsupported_schema,
  required_fields, critical_state_schema_version, failsafe_code, failsafe_from_code,
  field_schema_version, field_node_id, field_position_north_m, field_position_east_m,
  field_position_down_m, field_velocity_north_mps, field_velocity_east_mps, field_velocity_down_mps,
  field_heading_rad, field_altitude_agl_m, field_battery_pct, field_link_quality,
  field_timestamp_ms, field_failsafe_state,
}
use ruv_drone.Latentmesh.State.Ranges.{
  validate_q16, validate_domain_ranges, q16_16_scale, i32_min, i32_max,
}

-- `result?` where the error is that of `CriticalState`.
abbrev pub lift_set : {A C : Type 0} → Result A C → Result (StateError A) C
lift_set (ok c) = ok c
lift_set (err e) = err (air e)

abbrev pub missing : {A : Type 0} → Option ℕ → Result (StateError A) (Unit {0})
missing none = ok tt
missing (some i) = err (missing_field i)

abbrev pub unknown : {A : Type 0} → Option ℕ → Result (StateError A) (Unit {0})
unknown none = ok tt
unknown (some i) = err (unknown_field i)

module _ {A C : Type 0} (y : Symbols A C) where
  -- `state.set(field_id, SymbolValue::U64(value))?`.
  unfoldable pub set_u64 : C → ℕ → ℕ → Result (StateError A) C
  set_u64 c field_id value = lift_set (y.set c field_id (y.u64_symbol value))

  -- Whether `get` finds the field.
  abbrev pub has_field : C → ℕ → Bool
  has_field c i = is_some (y.get c i)

  unfoldable pub validate_field_set : C → Result (StateError A) (Unit {0})
  validate_field_set c = do
    missing (find_not (has_field c) required_fields)
    unknown (find_not (λ i. contains i required_fields) (y.field_ids c))

  -- The symbol of a field, read as one kind of value.
  abbrev pub typed :
      {T : Type 0} → ℕ → (y.Symbol → Option T) → Option y.Symbol → Result (StateError A) T
  typed field_id read none = err (missing_field field_id)
  typed field_id read (some s) = ok_or (read s) (wrong_type field_id)

  unfoldable pub required_u64 : C → ℕ → Result (StateError A) ℕ
  required_u64 c field_id = typed field_id y.as_u64 (y.get c field_id)

module _ {A C D : Type 0} (y : Symbols A C) ⦃f : Float D⦄ ⦃r : Rounding D⦄ where
  unfoldable pub set_q16 : C → ℕ → String → D → Result (StateError A) C
  unfolding validate_q16
  set_q16 c field_id name value = do
    validate_q16 name value
    let scaled = r.round (f.mul value q16_16_scale)
    reject_if (not (in_range i32_min i32_max scaled)) (out_of_range name "-32768" "32767.99998")
    lift_set (y.set c field_id (y.q16_symbol (r.to_i32 scaled)))

  unfoldable pub required_q16 : C → ℕ → Result (StateError A) D
  required_q16 c field_id = do
    n ← typed y field_id y.as_q16 (y.get c field_id)
    ok (f.div (r.of_i32 n) q16_16_scale)

module _ {A C D B : Type 0} (y : Symbols A C) ⦃f : Float D⦄ ⦃r : Rounding D⦄
    ⦃w : Widening B D⦄ where
  unfoldable pub to_critical_state : DroneState D B → FailSafeState → Result (StateError A) C
  unfolding validate_domain_ranges set_u64 set_q16 failsafe_code
  to_critical_state drone failsafe = do
    validate_domain_ranges drone
    let c0 = y.new
    c1 ← set_u64 y c0 field_schema_version critical_state_schema_version
    c2 ← set_u64 y c1 field_node_id drone.id
    c3 ← set_q16 y c2 field_position_north_m "position.x" drone.position.x
    c4 ← set_q16 y c3 field_position_east_m "position.y" drone.position.y
    c5 ← set_q16 y c4 field_position_down_m "position.z" drone.position.z
    c6 ← set_q16 y c5 field_velocity_north_mps "velocity.vx" drone.velocity.vx
    c7 ← set_q16 y c6 field_velocity_east_mps "velocity.vy" drone.velocity.vy
    c8 ← set_q16 y c7 field_velocity_down_mps "velocity.vz" drone.velocity.vz
    c9 ← set_q16 y c8 field_heading_rad "heading_rad" drone.heading_rad
    c10 ← set_q16 y c9 field_altitude_agl_m "altitude_agl_m" drone.altitude_agl_m
    c11 ← set_q16 y c10 field_battery_pct "battery_pct" (w.widen drone.battery_pct)
    c12 ← set_q16 y c11 field_link_quality "link_quality" (w.widen drone.link_quality)
    c13 ← set_u64 y c12 field_timestamp_ms drone.timestamp_ms
    set_u64 y c13 field_failsafe_state (failsafe_code failsafe)

  -- The fields of the drone, in the order in which the struct literal reads them.
  unfoldable pub read_drone : C → ℕ → Result (StateError A) (DroneState D B)
  unfolding required_u64 required_q16
  read_drone c node = do
    px ← required_q16 y c field_position_north_m
    py ← required_q16 y c field_position_east_m
    pz ← required_q16 y c field_position_down_m
    vx ← required_q16 y c field_velocity_north_mps
    vy ← required_q16 y c field_velocity_east_mps
    vz ← required_q16 y c field_velocity_down_mps
    heading_rad ← required_q16 y c field_heading_rad
    altitude_agl_m ← required_q16 y c field_altitude_agl_m
    battery ← required_q16 y c field_battery_pct
    link ← required_q16 y c field_link_quality
    timestamp_ms ← required_u64 y c field_timestamp_ms
    ok (record {
      id = node;
      position = record { x = px; y = py; z = pz };
      velocity = record { vx = vx; vy = vy; vz = vz };
      heading_rad = heading_rad;
      altitude_agl_m = altitude_agl_m;
      battery_pct = w.narrow battery;
      link_quality = w.narrow link;
      timestamp_ms = timestamp_ms;
    })

  unfoldable pub from_critical_state : C → Result (StateError A) (AdvisoryPeerSnapshot D B)
  unfolding validate_field_set required_u64 failsafe_from_code read_drone validate_domain_ranges
  from_critical_state c = do
    validate_field_set y c
    schema ← required_u64 y c field_schema_version
    reject_if (not (schema == critical_state_schema_version)) (unsupported_schema schema)
    node ← required_u64 y c field_node_id
    reject_if (ltb u32_max node) (out_of_range "node_id" "0" "u32::MAX")
    code ← required_u64 y c field_failsafe_state
    failsafe ← failsafe_from_code code
    drone ← read_drone c node
    validate_domain_ranges drone
    ok (record { drone = drone; failsafe = failsafe })
