-- ===== src/Latentmesh/State/Fields.antt =====
-- The fields that the encoder of src/latentmesh/state.rs sets, one after the other.
use Prim.Native.String.{String}
use ruv_drone.Base.{
  ℕ, ◌≡◌, refl, ◌∙◌, sym, ap, true, false, ◌==◌, if◌then◌else◌, List, [], ◌∷◌, Option, some,
  is_some, Result, ok, err, ◌>>=◌, reject_if-eq-ok, bind-eq-ok, contains, arith,
}
use ruv_drone.Base.Float.{Float, Widening}
use ruv_drone.Types.{DroneState}
use ruv_drone.Latentmesh.State.Symbols.{ℤ, IsFieldMap, Rounding, Symbols}
use ruv_drone.Latentmesh.State.Schema.{StateError}
use ruv_drone.Latentmesh.State.Ranges.{q16_16_scale, validate_q16}
use ruv_drone.Latentmesh.State.Codec.{lift_set, set_q16, set_u64}

module _ {D : Type 0} ⦃f : Float D⦄ ⦃r : Rounding D⦄ where
  -- The nearest multiple of 2^-16, as `set_q16` and `required_q16` compute it.
  abbrev pub to_q16 : D → ℤ
  to_q16 value = r.to_i32 (r.round (f.mul value q16_16_scale))

  abbrev pub quantised : D → D
  quantised value = f.div (r.of_i32 (to_q16 value)) q16_16_scale

module _ {D B : Type 0} ⦃f : Float D⦄ ⦃r : Rounding D⦄ ⦃w : Widening B D⦄ where
  abbrev pub quantised_state : DroneState D B → DroneState D B
  quantised_state d = record {
    id = d.id;
    position = record {
      x = quantised d.position.x;
      y = quantised d.position.y;
      z = quantised d.position.z;
    };
    velocity = record {
      vx = quantised d.velocity.vx;
      vy = quantised d.velocity.vy;
      vz = quantised d.velocity.vz;
    };
    heading_rad = quantised d.heading_rad;
    altitude_agl_m = quantised d.altitude_agl_m;
    battery_pct = w.narrow (quantised (w.widen d.battery_pct));
    link_quality = w.narrow (quantised (w.widen d.link_quality));
    timestamp_ms = d.timestamp_ms;
  }

module _ {A C : Type 0} (y : Symbols A C) where
  -- The fields were set one after the other, each without an error.
  abbrev pub IsSetEach : C → List (ℕ × y.Symbol) → C → Type 0
  IsSetEach c [] d = c ≡ d
  IsSetEach c ((i, s) ∷ rest) d = (e : C) × (y.set c i s ≡ ok e) × IsSetEach e rest d

  -- The last symbol that a list sets a field to.
  abbrev pub found : ℕ → Option y.Symbol → List (ℕ × y.Symbol) → Option y.Symbol
  found j o [] = o
  found j o ((i, s) ∷ rest) = found j (if j == i then some s else o) rest

  abbrev pub set_ids : List (ℕ × y.Symbol) → List ℕ
  set_ids [] = []
  set_ids ((i, s) ∷ rest) = i ∷ set_ids rest

  pub found_unset :
      (j : ℕ) (o : Option y.Symbol) (l : List (ℕ × y.Symbol))
      → contains j (set_ids l) ≡ false
      → found j o l ≡ o
  found_unset j o [] h = refl
  found_unset j o ((i, s) ∷ rest) h = ground (arith, found_unset j o rest)

  found_some :
      (j : ℕ) (o : Option y.Symbol) (l : List (ℕ × y.Symbol))
      → is_some o ≡ true
      → is_some (found j o l) ≡ true
  found_some j o [] h = h
  found_some j o ((i, s) ∷ rest) h = ground (arith, found_some j (some s) rest, found_some j o rest)

  pub found_set :
      (j : ℕ) (o : Option y.Symbol) (l : List (ℕ × y.Symbol))
      → contains j (set_ids l) ≡ true
      → is_some (found j o l) ≡ true
  found_set j o [] h = cc
  found_set j o ((i, s) ∷ rest) h = ground (arith, found_some j (some s) rest, found_set j o rest)

  pub get-IsSetEach :
      IsFieldMap y
      → (c d : C) (l : List (ℕ × y.Symbol)) (j : ℕ) → IsSetEach c l d
      → y.get d j ≡ found j (y.get c j) l
  get-IsSetEach m c d [] j h = ap (λ e. y.get e j) (sym h)
  get-IsSetEach m c d ((i, s) ∷ rest) j (e, h, t) =
      get-IsSetEach m e d rest j t ∙ ap (λ o. found j o rest) (m.get-set c e i j s h)

  pub lift_set-eq-ok : (q : Result A C) (c : C) → lift_set q ≡ ok c → q ≡ ok c
  lift_set-eq-ok (ok e) c h = ground arith
  lift_set-eq-ok (err e) c h = ground arith

  pub set_u64_then :
      (c d : C) (i n : ℕ) (k : C → Result (StateError A) C) (l : List (ℕ × y.Symbol))
      → (set_u64 y c i n >>= k) ≡ ok d
      → ((e : C) → k e ≡ ok d → IsSetEach e l d)
      → IsSetEach c ((i, y.u64_symbol n) ∷ l) d
  unfolding set_u64
  set_u64_then c d i n k l h t =
      let (e, s, g) = bind-eq-ok (lift_set (y.set c i (y.u64_symbol n))) k h in
      (e, lift_set-eq-ok _ e s, t e g)

  module _ {D : Type 0} ⦃f : Float D⦄ ⦃r : Rounding D⦄ where
    set_q16-eq-ok :
        (c e : C) (i : ℕ) (name : String) (x : D)
        → set_q16 y c i name x ≡ ok e
        → y.set c i (y.q16_symbol (to_q16 x)) ≡ ok e
    unfolding set_q16
    set_q16-eq-ok c e i name x h =
        let (_, _, s) = bind-eq-ok (validate_q16 name x) _ h in
        lift_set-eq-ok _ e (reject_if-eq-ok _ _ _ s).1

    pub set_q16_then :
        (c d : C) (i : ℕ) (name : String) (x : D) (k : C → Result (StateError A) C)
        (l : List (ℕ × y.Symbol))
        → (set_q16 y c i name x >>= k) ≡ ok d
        → ((e : C) → k e ≡ ok d → IsSetEach e l d)
        → IsSetEach c ((i, y.q16_symbol (to_q16 x)) ∷ l) d
    set_q16_then c d i name x k l h t =
        let (e, s, g) = bind-eq-ok (set_q16 y c i name x) k h in
        (e, set_q16-eq-ok c e i name x s, t e g)
