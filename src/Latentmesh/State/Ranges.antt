-- ===== src/Latentmesh/State/Ranges.antt =====
-- The range checks of src/latentmesh/state.rs. `D` stands for `f64`, `B` for `f32`.
use Prim.Native.String.{String}
use ruv_drone.Base.{not, List, [], ◌∷◌, Result, ok, ◌>>◌, reject_if}
use ruv_drone.Base.Float.{Float, in_range, Widening}
use ruv_drone.Types.{DroneState}
use ruv_drone.Latentmesh.State.Symbols.{Rounding}
use ruv_drone.Latentmesh.State.Schema.{StateError, non_finite, out_of_range}

module _ {D : Type 0} ⦃f : Float D⦄ where
  abbrev pub q16_16_scale : D
  q16_16_scale = f.decimal 65_536 0

  abbrev pub i32_min : D
  i32_min = f.neg (f.decimal 2_147_483_648 0)

  abbrev pub i32_max : D
  i32_max = f.decimal 2_147_483_647 0

  abbrev pub q16_16_min : D
  q16_16_min = f.div i32_min q16_16_scale

  abbrev pub q16_16_max : D
  q16_16_max = f.div i32_max q16_16_scale

module _ {A D : Type 0} ⦃f : Float D⦄ where
  unfoldable pub validate_q16 : String → D → Result (StateError A) (Unit {0})
  validate_q16 field value = do
    reject_if (not (f.is_finite value)) (non_finite field)
    reject_if (not (in_range q16_16_min q16_16_max value))
        (out_of_range field "-32768" "32767.99998")

  unfoldable pub validate_bounded :
      String → D → (minimum maximum : D) → String → String → Result (StateError A) (Unit {0})
  unfolding validate_q16
  validate_bounded field value minimum maximum minimum_label maximum_label = do
    reject_if (not (f.is_finite value)) (non_finite field)
    reject_if (not (in_range minimum maximum value))
        (out_of_range field minimum_label maximum_label)
    validate_q16 field value

  -- The loop of `validate_domain_ranges` over the named coordinates.
  unfoldable pub validate_each : List (String × D) → Result (StateError A) (Unit {0})
  unfolding validate_q16
  validate_each [] = ok tt
  validate_each ((name, value) ∷ rest) = do validate_q16 name value; validate_each rest

module _ {A D B : Type 0} ⦃f : Float D⦄ ⦃r : Rounding D⦄ ⦃w : Widening B D⦄ where
  unfoldable pub validate_domain_ranges : DroneState D B → Result (StateError A) (Unit {0})
  unfolding validate_each validate_bounded
  validate_domain_ranges drone = do
    validate_each (
        ("position.x", drone.position.x)
        ∷ ("position.y", drone.position.y)
        ∷ ("position.z", drone.position.z)
        ∷ ("velocity.vx", drone.velocity.vx)
        ∷ ("velocity.vy", drone.velocity.vy)
        ∷ ("velocity.vz", drone.velocity.vz)
        ∷ [])
    validate_bounded "heading_rad" drone.heading_rad (f.neg r.tau) r.tau "-2*pi" "2*pi"
    validate_bounded "altitude_agl_m" drone.altitude_agl_m (f.decimal 0 0) q16_16_max "0"
        "32767.99998"
    validate_bounded "battery_pct" (w.widen drone.battery_pct) (f.decimal 0 0) (f.decimal 100 0) "0"
        "100"
    validate_bounded "link_quality" (w.widen drone.link_quality) (f.decimal 0 0) (f.decimal 1 0) "0"
        "1"
