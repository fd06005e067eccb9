-- ===== src/Latentmesh/State/Domain.antt =====
-- What src/latentmesh/state.rs accepts of a received state.
use Prim.Native.String.{String}
use ruv_drone.Base.{◌≡◌, true, All, List, [], ◌∷◌, ok, bind-eq-ok, arith}
use ruv_drone.Base.Float.{Float, Widening}
use ruv_drone.Types.{DroneState}
use ruv_drone.Latentmesh.State.Symbols.{Rounding}
use ruv_drone.Latentmesh.State.Ranges.{
  q16_16_max, q16_16_min, validate_bounded, validate_domain_ranges, validate_each, validate_q16,
}

module _ {D : Type 0} ⦃f : Float D⦄ where
  abbrev pub IsWithin : (lo hi x : D) → Type 0
  IsWithin lo hi x = (f.is_finite x ≡ true) × (f.le lo x ≡ true) × (f.le x hi ≡ true)

  -- Finite, and a number that a Q16.16 symbol can hold.
  abbrev pub IsQ16 : D → Type 0
  IsQ16 = IsWithin q16_16_min q16_16_max

  validate_q16-IsQ16 :
      (A : Type 0) (field : String) (x : D) → validate_q16 {A = A} field x ≡ ok tt → IsQ16 x
  unfolding validate_q16
  validate_q16-IsQ16 A field x h = ground arith

  validate_bounded-IsWithin :
      (A : Type 0) (field : String) (x lo hi : D) (lo_label hi_label : String)
      → validate_bounded {A = A} field x lo hi lo_label hi_label ≡ ok tt
      → IsWithin lo hi x × IsQ16 x
  unfolding validate_bounded
  validate_bounded-IsWithin A field x lo hi lo_label hi_label h =
      ground (arith, validate_q16-IsQ16 A field x)

  validate_each-IsQ16 :
      (A : Type 0) (l : List (String × D))
      → validate_each {A = A} l ≡ ok tt
      → All (λ p. IsQ16 p.1) l
  unfolding validate_each
  validate_each-IsQ16 A [] h = tt
  validate_each-IsQ16 A ((field, x) ∷ l) h =
      let (_, e, g) = bind-eq-ok (validate_q16 field x) _ h in
      (validate_q16-IsQ16 A field x e, validate_each-IsQ16 A l g)

-- Telemetry that may cross the boundary: every number finite and in its range.
pub record IsInDomain {D B : Type 0} ⦃f : Float D⦄ ⦃r : Rounding D⦄ ⦃w : Widening B D⦄
    (d : DroneState D B) : Type 0 where
  pub north : IsQ16 d.position.x
  pub east : IsQ16 d.position.y
  pub down : IsQ16 d.position.z
  pub north_speed : IsQ16 d.velocity.vx
  pub east_speed : IsQ16 d.velocity.vy
  pub down_speed : IsQ16 d.velocity.vz
  pub heading : IsWithin (f.neg r.tau) r.tau d.heading_rad
  pub altitude : IsWithin (f.decimal 0 0) q16_16_max d.altitude_agl_m
  pub battery : IsWithin (f.decimal 0 0) (f.decimal 100 0) (w.widen d.battery_pct)
  pub link : IsWithin (f.decimal 0 0) (f.decimal 1 0) (w.widen d.link_quality)

-- The numbers that `validate_domain_ranges` loops over.
abbrev coordinates : {D B : Type 0} → DroneState D B → List (String × D)
coordinates d =
    ("position.x", d.position.x)
    ∷ ("position.y", d.position.y)
    ∷ ("position.z", d.position.z)
    ∷ ("velocity.vx", d.velocity.vx)
    ∷ ("velocity.vy", d.velocity.vy)
    ∷ ("velocity.vz", d.velocity.vz)
    ∷ []

module _ {A D B : Type 0} ⦃f : Float D⦄ ⦃r : Rounding D⦄ ⦃w : Widening B D⦄ where
  pub validate_domain_ranges-IsInDomain :
      (d : DroneState D B) → validate_domain_ranges {A = A} d ≡ ok tt → IsInDomain d
  unfolding validate_domain_ranges
  validate_domain_ranges-IsInDomain d h =
      let (_, e, h) = bind-eq-ok (validate_each (coordinates d)) _ h in
      let (_, e1, h) = bind-eq-ok (validate_bounded {D = D} _ _ _ _ _ _) _ h in
      let (_, e2, h) = bind-eq-ok (validate_bounded {D = D} _ _ _ _ _ _) _ h in
      let (_, e3, e4) = bind-eq-ok (validate_bounded {D = D} _ _ _ _ _ _) _ h in
      let q = validate_each-IsQ16 A (coordinates d) e in
      record {
        north = q.0;
        east = q.1.0;
        down = q.1.1.0;
        north_speed = q.1.1.1.0;
        east_speed = q.1.1.1.1.0;
        down_speed = q.1.1.1.1.1.0;
        heading = (validate_bounded-IsWithin {D = D} A _ _ _ _ _ _ e1).0;
        altitude = (validate_bounded-IsWithin {D = D} A _ _ _ _ _ _ e2).0;
        battery = (validate_bounded-IsWithin {D = D} A _ _ _ _ _ _ e3).0;
        link = (validate_bounded-IsWithin {D = D} A _ _ _ _ _ _ e4).0;
      }
