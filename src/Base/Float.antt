-- ===== src/Base/Float.antt =====
-- `f32` and `f64`. The type and its operations are a parameter; a model has the laws of IEEE 754
-- that the code relies on, and the comparisons are false wherever a NaN stands.
use Prim.Native.Nat.{ℕ, ◌≤◌}
use mathlib.Core.Path.{◌≡◌}
use mathlib.Core.Logic.{◌⊎◌}
use mathlib.Core.Bool.{Bool, true, false, ◌&&◌}
use ruv_drone.Base.Tests.{if◌then◌else◌}

pub record Float (W : Type 0) : Type 0 where
  -- The literal m / 10 ^ k, and its negation.
  pub decimal : ℕ → ℕ → W
  pub neg : W → W
  pub is_finite : W → Bool
  pub lt : W → W → Bool
  pub le : W → W → Bool
  pub add : W → W → W
  pub sub : W → W → W
  pub mul : W → W → W
  pub div : W → W → W
  pub max : W → W → W
  pub min : W → W → W
  pub ceil : W → W
  -- `x as f64` from an integer, and the saturating `x as u64`.
  pub of_nat : ℕ → W
  pub to_u64 : W → ℕ
  -- `Duration::as_secs_f64` of a duration in nanoseconds.
  pub of_nanos : ℕ → W

-- The casts between `f32` and `f64`.
pub record Widening (B D : Type 0) : Type 0 where
  pub widen : B → D
  pub narrow : D → B

-- The values and functions of `f64` that geometry uses.
pub record Geometry (D : Type 0) : Type 0 where
  pub max_value : D
  pub nan : D
  pub infinity : D
  pub sqrt : D → D
  pub powi : D → ℕ → D
  pub atan2 : D → D → D
  -- The saturating `x as u32`.
  pub to_u32 : D → ℕ

module _ {W : Type 0} ⦃f : Float W⦄ where
  -- `(lo..=hi).contains(&x)`.
  abbrev pub in_range : W → W → W → Bool
  in_range lo hi x = f.le lo x && f.le x hi

  -- `x.clamp(low, high)`, which a NaN passes.
  abbrev pub clamp : W → W → W → W
  clamp x low high = if f.lt x low then low else if f.lt high x then high else x

-- What is used of the order: NaN is the value that is not `<=` itself.
pub record IsOrdered (W : Type 0) ⦃f : Float W⦄ : Type 0 where
  pub le_finite : (x : W) → f.is_finite x ≡ true → f.le x x ≡ true
  pub refl_of_le : (x y : W) → f.le x y ≡ true → (f.le x x ≡ true) × (f.le y y ≡ true)
  pub le_trans : (x y z : W) → f.le x y ≡ true → f.le y z ≡ true → f.le x z ≡ true
  pub le_of_lt : (x y : W) → f.lt x y ≡ true → f.le x y ≡ true
  pub lt_not_le : (x y : W) → f.lt x y ≡ true → f.le y x ≡ false
  pub lt_or_le :
      (x y : W) → f.le x x ≡ true → f.le y y ≡ true → (f.lt x y ≡ true) ⊎ (f.le y x ≡ true)
  pub decimal_mono : (m n k : ℕ) → m ≤ n → f.le (f.decimal m k) (f.decimal n k) ≡ true
