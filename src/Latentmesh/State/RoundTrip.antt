-- ===== src/Latentmesh/State/RoundTrip.antt =====
-- What a state of src/latentmesh/state.rs is after it is encoded and decoded.
use ruv_drone.Base.{
  ℕ, ◌≤◌, ◌≡◌, refl, ◌∙◌, sym, ap, true, Bool-cases, inl, inr, List, [], ◌∷◌, none, some, is_some,
  ok, ◌>>◌, bind-eq-ok, contains, find_not_none, u32_max, arith, drop, All, All-of_contains,
}
use ruv_drone.Base.Float.{Float, Widening}
use ruv_drone.Types.{DroneState}
use ruv_drone.Failsafe.{FailSafeState}
use ruv_drone.Latentmesh.State.Symbols.{IsFieldMap, Rounding, Symbols}
use ruv_drone.Latentmesh.State.Schema.{
  required_fields, failsafe_code, failsafe_from_code, critical_state_schema_version,
  field_altitude_agl_m, field_battery_pct, field_failsafe_state, field_heading_rad,
  field_link_quality, field_node_id, field_position_down_m, field_position_east_m,
  field_position_north_m, field_schema_version, field_timestamp_ms, field_velocity_down_mps,
  field_velocity_east_mps, field_velocity_north_mps,
}
use ruv_drone.Latentmesh.State.Ranges.{validate_domain_ranges}
use ruv_drone.Latentmesh.State.Codec.{
  from_critical_state, read_drone, required_q16, required_u64, set_u64, to_critical_state,
  validate_field_set, has_field,
}
use ruv_drone.Latentmesh.State.Fields.{
  found_set, found_unset, IsSetEach, found, get-IsSetEach, set_q16_then, set_u64_then, to_q16,
  quantised, quantised_state, lift_set-eq-ok,
}

failsafe_from_code-failsafe_code :
    {A : Type 0} (s : FailSafeState) → failsafe_from_code {A = A} (failsafe_code s) ≡ ok s
unfolding failsafe_from_code failsafe_code
failsafe_from_code-failsafe_code s = ground arith

module _ {A C : Type 0} (y : Symbols A C) where
  required_u64-eq :
      IsFieldMap y
      → (c : C) (i n : ℕ) → y.get c i ≡ some (y.u64_symbol n)
      → required_u64 y c i ≡ ok n
  unfolding required_u64
  required_u64-eq m c i n h = rw (h, m.as_u64-u64_symbol n) refl

module _ {A C D : Type 0} (y : Symbols A C) ⦃f : Float D⦄ ⦃r : Rounding D⦄ where
  required_q16-eq :
      IsFieldMap y
      → (c : C) (i : ℕ) (x : D) → y.get c i ≡ some (y.q16_symbol (to_q16 x))
      → required_q16 y c i ≡ ok (quantised x)
  unfolding required_q16
  required_q16-eq m c i x h = rw (h, m.as_q16-q16_symbol (to_q16 x)) refl

module _ {A C D B : Type 0} (y : Symbols A C) ⦃f : Float D⦄ ⦃r : Rounding D⦄
    ⦃w : Widening B D⦄ where
  -- What is set for a state, in the order of `to_critical_state`.
  abbrev fields_of : DroneState D B → FailSafeState → List (ℕ × y.Symbol)
  fields_of d s =
      (field_schema_version, y.u64_symbol critical_state_schema_version)
      ∷ (field_node_id, y.u64_symbol d.id)
      ∷ (field_position_north_m, y.q16_symbol (to_q16 d.position.x))
      ∷ (field_position_east_m, y.q16_symbol (to_q16 d.position.y))
      ∷ (field_position_down_m, y.q16_symbol (to_q16 d.position.z))
      ∷ (field_velocity_north_mps, y.q16_symbol (to_q16 d.velocity.vx))
      ∷ (field_velocity_east_mps, y.q16_symbol (to_q16 d.velocity.vy))
      ∷ (field_velocity_down_mps, y.q16_symbol (to_q16 d.velocity.vz))
      ∷ (field_heading_rad, y.q16_symbol (to_q16 d.heading_rad))
      ∷ (field_altitude_agl_m, y.q16_symbol (to_q16 d.altitude_agl_m))
      ∷ (field_battery_pct, y.q16_symbol (to_q16 (w.widen d.battery_pct)))
      ∷ (field_link_quality, y.q16_symbol (to_q16 (w.widen d.link_quality)))
      ∷ (field_timestamp_ms, y.u64_symbol d.timestamp_ms)
      ∷ (field_failsafe_state, y.u64_symbol (failsafe_code s))
      ∷ []

  to_critical_state-IsSetEach :
      (d : DroneState D B) (s : FailSafeState) (c : C)
      → to_critical_state y d s ≡ ok c
      → IsSetEach y y.new (fields_of d s) c
  unfolding to_critical_state set_u64
  to_critical_state-IsSetEach d s c h =
      let (_, _, h) = bind-eq-ok (validate_domain_ranges d) _ h in
      let l = fields_of d s in
      set_u64_then y _ _ _ _ _ (drop 1 l) h (λ _ h. set_u64_then y _ _ _ _ _ (drop 2 l) h (λ _ h.
        set_q16_then y {D = D} _ _ _ _ _ _ (drop 3 l) h (λ _ h.
          set_q16_then y {D = D} _ _ _ _ _ _ (drop 4 l) h (λ _ h.
            set_q16_then y {D = D} _ _ _ _ _ _ (drop 5 l) h (λ _ h.
              set_q16_then y {D = D} _ _ _ _ _ _ (drop 6 l) h (λ _ h.
                set_q16_then y {D = D} _ _ _ _ _ _ (drop 7 l) h (λ _ h.
                  set_q16_then y {D = D} _ _ _ _ _ _ (drop 8 l) h (λ _ h.
                    set_q16_then y {D = D} _ _ _ _ _ _ (drop 9 l) h (λ _ h.
                      set_q16_then y {D = D} _ _ _ _ _ _ (drop 10 l) h (λ _ h.
                        set_q16_then y {D = D} _ _ _ _ _ _ (drop 11 l) h (λ _ h.
                          set_q16_then y {D = D} _ _ _ _ _ _ (drop 12 l) h (λ _ h.
                            set_u64_then y _ _ _ _ _ (drop 13 l) h
                              (λ _ h. (c, lift_set-eq-ok y _ c h, refl))))))))))))))

  get-to_critical_state :
      IsFieldMap y
      → (d : DroneState D B) (s : FailSafeState) (c : C) → to_critical_state y d s ≡ ok c
      → (j : ℕ) → y.get c j ≡ found y j none (fields_of d s)
  get-to_critical_state m d s c h j =
      get-IsSetEach y m y.new c (fields_of d s) j (to_critical_state-IsSetEach d s c h)
      ∙ ap (λ o. found y j o (fields_of d s)) (m.get-new j)

  -- A state that was encoded has the fields of the schema and no other.
  has_field-to_critical_state :
      IsFieldMap y
      → (d : DroneState D B) (s : FailSafeState) (c : C) → to_critical_state y d s ≡ ok c
      → (j : ℕ) → is_some (y.get c j) ≡ true
      → contains j required_fields ≡ true
  has_field-to_critical_state m d s c h j t = elim (Bool-cases (contains j required_fields)) [
    | inl e ↦ e
    | inr e ↦
        absurd (cc (get-to_critical_state m d s c h j, found_unset y j none (fields_of d s) e, t))
  ]

  validate_field_set-to_critical_state :
      IsFieldMap y
      → (d : DroneState D B) (s : FailSafeState) (c : C) → to_critical_state y d s ≡ ok c
      → validate_field_set y c ≡ ok tt
  unfolding validate_field_set
  validate_field_set-to_critical_state m d s c h =
      let g = get-to_critical_state m d s c h in
      let all : All (λ i. has_field y c i ≡ true) required_fields =
        All-of_contains _ required_fields
          (λ i e. ap is_some (g i) ∙ found_set y i none (fields_of d s) e) in
      let known : All (λ i. contains i required_fields ≡ true) (y.field_ids c) =
        All-of_contains _ (y.field_ids c)
          (λ i e. has_field-to_critical_state m d s c h i (sym (m.contains-field_ids c i) ∙ e)) in
      rw
        (
          find_not_none (has_field y c) required_fields all,
          find_not_none (λ i. contains i required_fields) (y.field_ids c) known,
        )
        refl

  read_drone-to_critical_state :
      IsFieldMap y
      → (d : DroneState D B) (s : FailSafeState) (c : C) → to_critical_state y d s ≡ ok c
      → read_drone y c d.id ≡ ok (quantised_state d)
  unfolding read_drone
  read_drone-to_critical_state m d s c h =
      let g = get-to_critical_state m d s c h in
      rw
        (
          required_q16-eq y m c field_position_north_m _ (g _),
          required_q16-eq y m c field_position_east_m _ (g _),
          required_q16-eq y m c field_position_down_m _ (g _),
          required_q16-eq y m c field_velocity_north_mps _ (g _),
          required_q16-eq y m c field_velocity_east_mps _ (g _),
          required_q16-eq y m c field_velocity_down_mps _ (g _),
          required_q16-eq y m c field_heading_rad _ (g _),
          required_q16-eq y m c field_altitude_agl_m _ (g _),
          required_q16-eq y m c field_battery_pct _ (g _),
          required_q16-eq y m c field_link_quality _ (g _),
          required_u64-eq y m c field_timestamp_ms _ (g _),
        )
        refl

  -- A state that is encoded decodes to itself, each number rounded to 1/65536, with its identifier,
  -- time and fail-safe state as they were, if the rounded numbers are in their ranges; if not, the
  -- decoder reports the range. No field is lost or exchanged.
  pub from_critical_state-to_critical_state :
      IsFieldMap y
      → (d : DroneState D B) (s : FailSafeState) (c : C) → d.id ≤ u32_max
      → to_critical_state y d s ≡ ok c
      → from_critical_state y c ≡ (
          validate_domain_ranges (quantised_state d)
          >> ok (record { drone = quantised_state d; failsafe = s }))
  unfolding from_critical_state
  from_critical_state-to_critical_state m d s c b h =
      let g = get-to_critical_state m d s c h in
      rw
        (
          validate_field_set-to_critical_state m d s c h,
          required_u64-eq y m c field_schema_version _ (g _),
          required_u64-eq y m c field_node_id _ (g _),
          required_u64-eq y m c field_failsafe_state _ (g _),
          failsafe_from_code-failsafe_code s,
        )
        (ground (arith, read_drone-to_critical_state m d s c h))
