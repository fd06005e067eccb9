-- ===== src/Latentmesh/State/Accepted.antt =====
-- What the decoder of src/latentmesh/state.rs accepts, and what it then returns.
use ruv_drone.Base.{
  ℕ, ◌≤◌, ◌≡◌, ◌∙◌, ap, refl, true, false, not, ltb, ◌==◌, All, ok, reject_if-eq-ok, bind-eq-ok,
  bind_then, contains, find_not, All-of_find_not, u32_max, subst, ok-injective, arith, Option, none,
  some,
}
use ruv_drone.Base.Float.{Float, Widening}
use ruv_drone.Types.{DroneState}
use ruv_drone.Latentmesh.Protocol.Types.{AdvisoryPeerSnapshot}
use ruv_drone.Latentmesh.State.Symbols.{Rounding, Symbols}
use ruv_drone.Latentmesh.State.Schema.{
  failsafe_from_code, critical_state_schema_version, field_altitude_agl_m, field_battery_pct,
  field_failsafe_state, field_heading_rad, field_link_quality, field_node_id, field_position_down_m,
  field_position_east_m, field_position_north_m, field_schema_version, field_timestamp_ms,
  field_velocity_down_mps, field_velocity_east_mps, field_velocity_north_mps, required_fields,
}
use ruv_drone.Latentmesh.State.Ranges.{validate_domain_ranges}
use ruv_drone.Latentmesh.State.Codec.{
  from_critical_state, has_field, missing, read_drone, required_q16, required_u64, unknown,
  validate_field_set,
}
use ruv_drone.Latentmesh.State.Domain.{IsInDomain, validate_domain_ranges-IsInDomain}

-- The numbers of a drone are those of the fields of its state.
pub record IsRead {A C D B : Type 0} (y : Symbols A C) ⦃f : Float D⦄ ⦃r : Rounding D⦄
    ⦃w : Widening B D⦄ (c : C) (drone : DroneState D B) : Type 0 where
  pub north : required_q16 y c field_position_north_m ≡ ok drone.position.x
  pub east : required_q16 y c field_position_east_m ≡ ok drone.position.y
  pub down : required_q16 y c field_position_down_m ≡ ok drone.position.z
  pub north_speed : required_q16 y c field_velocity_north_mps ≡ ok drone.velocity.vx
  pub east_speed : required_q16 y c field_velocity_east_mps ≡ ok drone.velocity.vy
  pub down_speed : required_q16 y c field_velocity_down_mps ≡ ok drone.velocity.vz
  pub heading : required_q16 y c field_heading_rad ≡ ok drone.heading_rad
  pub altitude : required_q16 y c field_altitude_agl_m ≡ ok drone.altitude_agl_m
  pub battery :
      (x : D) × (required_q16 y c field_battery_pct ≡ ok x) × (w.narrow x ≡ drone.battery_pct)
  pub link :
      (x : D) × (required_q16 y c field_link_quality ≡ ok x) × (w.narrow x ≡ drone.link_quality)
  pub timestamp : required_u64 y c field_timestamp_ms ≡ ok drone.timestamp_ms

-- A state of schema version 1 with exactly its fields, and the snapshot that they spell.
pub record IsAccepted {A C D B : Type 0} (y : Symbols A C) ⦃f : Float D⦄ ⦃r : Rounding D⦄
    ⦃w : Widening B D⦄ (c : C) (p : AdvisoryPeerSnapshot D B) : Type 0 where
  pub complete : All (λ i. has_field y c i ≡ true) required_fields
  pub closed : All (λ i. contains i required_fields ≡ true) (y.field_ids c)
  pub version : required_u64 y c field_schema_version ≡ ok critical_state_schema_version
  pub id : required_u64 y c field_node_id ≡ ok p.drone.id
  pub small_id : p.drone.id ≤ u32_max
  pub code : ℕ
  pub code_lem : required_u64 y c field_failsafe_state ≡ ok code
  pub failsafe : failsafe_from_code {A = A} code ≡ ok p.failsafe
  pub read : IsRead y c p.drone
  pub domain : IsInDomain p.drone

eq_of_test : (m n : ℕ) → not (m == n) ≡ false → m ≡ n
eq_of_test m n h = ground arith

le_of_test : (m n : ℕ) → ltb m n ≡ false → n ≤ m
le_of_test m n h = ground arith

module _ {A C : Type 0} (y : Symbols A C) where
  missing-eq-ok : (o : Option ℕ) → missing {A = A} o ≡ ok tt → o ≡ none
  missing-eq-ok none h = refl
  missing-eq-ok (some i) h = cc

  unknown-eq-ok : (o : Option ℕ) → unknown {A = A} o ≡ ok tt → o ≡ none
  unknown-eq-ok none h = refl
  unknown-eq-ok (some i) h = cc

  validate_field_set-IsAll :
      (c : C)
      → validate_field_set y c ≡ ok tt
      → All (λ i. has_field y c i ≡ true) required_fields
        × All (λ i. contains i required_fields ≡ true) (y.field_ids c)
  unfolding validate_field_set
  validate_field_set-IsAll c h =
      let (_, e, g) = bind-eq-ok (missing (find_not (has_field y c) required_fields)) _ h in
      (
        All-of_find_not (has_field y c) required_fields (missing-eq-ok _ e),
        All-of_find_not (λ i. contains i required_fields) (y.field_ids c) (unknown-eq-ok _ g),
      )

module _ {A C D B : Type 0} (y : Symbols A C) ⦃f : Float D⦄ ⦃r : Rounding D⦄
    ⦃w : Widening B D⦄ where
  read_drone-IsRead :
      (c : C) (node : ℕ) (d : DroneState D B)
      → read_drone y c node ≡ ok d
      → (node ≡ d.id) × IsRead y c d
  unfolding read_drone
  read_drone-IsRead c node d h =
      bind_then (required_q16 {D = D} y c field_position_north_m) _ h (λ px north h.
        bind_then (required_q16 {D = D} y c field_position_east_m) _ h (λ py east h.
          bind_then (required_q16 {D = D} y c field_position_down_m) _ h (λ pz down h.
            bind_then (required_q16 {D = D} y c field_velocity_north_mps) _ h (λ vx north_speed h.
              bind_then (required_q16 {D = D} y c field_velocity_east_mps) _ h (λ vy east_speed h.
                bind_then (required_q16 {D = D} y c field_velocity_down_mps) _ h (λ vz down_speed h.
                  bind_then (required_q16 {D = D} y c field_heading_rad) _ h
                    (λ heading_rad heading h.
                      bind_then (required_q16 {D = D} y c field_altitude_agl_m) _ h
                        (λ altitude_agl_m altitude h.
                          bind_then (required_q16 {D = D} y c field_battery_pct) _ h (λ b battery h.
                            bind_then (required_q16 {D = D} y c field_link_quality) _ h (λ l link h.
                              bind_then (required_u64 y c field_timestamp_ms) _ h (λ t timestamp h.
                                (
                                  ap (λ e. e.id) (ok-injective h),
                                  subst (IsRead y c) (ok-injective h) (record {
                                    north = north;
                                    east = east;
                                    down = down;
                                    north_speed = north_speed;
                                    east_speed = east_speed;
                                    down_speed = down_speed;
                                    heading = heading;
                                    altitude = altitude;
                                    battery = (b, battery, refl);
                                    link = (l, link, refl);
                                    timestamp = timestamp;
                                  }),
                                ))))))))))))

  pub from_critical_state-IsAccepted :
      (c : C) (p : AdvisoryPeerSnapshot D B) → from_critical_state y c ≡ ok p → IsAccepted y c p
  unfolding from_critical_state
  from_critical_state-IsAccepted c p h = bind_then (validate_field_set y c) _ h (λ _ fields h.
      bind_then (required_u64 y c field_schema_version) _ h (λ schema version h.
        let (one, h) = reject_if-eq-ok (not (schema == critical_state_schema_version)) _ _ h in
        bind_then (required_u64 y c field_node_id) _ h (λ node id h.
          let (small, h) = reject_if-eq-ok (ltb u32_max node) _ _ h in
          bind_then (required_u64 y c field_failsafe_state) _ h (λ code code_lem h.
            bind_then (failsafe_from_code code) _ h (λ failsafe decoded h.
              bind_then (read_drone {D = D} {B = B} y c node) _ h (λ drone reads h.
                bind_then (validate_domain_ranges drone) _ h (λ _ domain h.
                  let (same, read) = read_drone-IsRead c node drone reads in
                  subst (IsAccepted y c) (ok-injective h) (record {
                    complete = (validate_field_set-IsAll y c fields).0;
                    closed = (validate_field_set-IsAll y c fields).1;
                    version = version ∙ ap ok (eq_of_test schema critical_state_schema_version one);
                    id = id ∙ ap ok same;
                    small_id = subst (λ n. n ≤ u32_max) same (le_of_test u32_max node small);
                    code = code;
                    code_lem = code_lem;
                    failsafe = decoded;
                    read = read;
                    domain = validate_domain_ranges-IsInDomain drone domain;
                  }))))))))
