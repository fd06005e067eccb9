-- ===== src/Base/Fixed.antt =====
-- A number type that meets what is asked of a `Float`: millionths, with `none` for NaN. It stands
-- for `f32` and `f64` in the tests.
use Prim.Native.Nat.{ℕ, zero, suc, ◌+◌, ◌-◌, ◌*◌, ◌/◌, ◌^◌, ◌≤◌}
use mathlib.Core.Path.{◌≡◌}
use mathlib.Core.Bool.{Bool, true, false}
use mathlib.Core.Option.{Option, none, some}
use native.Mathlib.Omega.{arith}
use native.Mathlib.Nat.{div-zero, le-div_iff_mul-le, div-mul-le_self, le_trans}
use ruv_drone.Base.Tests.{le→leb, ltb, leb, ◌==◌, if◌then◌else◌, is_some}
use ruv_drone.Base.Word.{saturate_u64}
use ruv_drone.Base.Float.{Float, Geometry, IsOrdered, Widening}

abbrev pub Fixed : Type 0
Fixed = Option ℕ

abbrev pub scale : ℕ
scale = 1_000_000

abbrev pub compared : (ℕ → ℕ → Bool) → Fixed → Fixed → Bool
compared f (some a) (some b) = f a b
compared f _ _ = false

abbrev pub computed : (ℕ → ℕ → Fixed) → Fixed → Fixed → Fixed
computed f (some a) (some b) = f a b
computed f _ _ = none

abbrev pub difference : ℕ → ℕ → Fixed
difference a b = if leb b a then some (a - b) else none

abbrev pub quotient : ℕ → ℕ → Fixed
quotient a b = if b == 0 then none else some (a * scale / b)

abbrev pub larger : Fixed → Fixed → Fixed
larger none y = y
larger x none = x
larger (some a) (some b) = some (if leb a b then b else a)

abbrev pub smaller : Fixed → Fixed → Fixed
smaller none y = y
smaller x none = x
smaller (some a) (some b) = some (if leb a b then a else b)

abbrev pub negated : Fixed → Fixed
negated none = none
negated (some a) = if a == 0 then some 0 else none

abbrev pub ceiling : Fixed → Fixed
ceiling none = none
ceiling (some a) = some ((a + 999_999) / scale * scale)

abbrev pub whole : Fixed → ℕ
whole none = 0
whole (some a) = saturate_u64 (a / scale)

instance abbrev pub fixed_float : Float Fixed
fixed_float = record {
  decimal = λ m k. some (m * scale / 10 ^ k);
  neg = negated;
  is_finite = is_some;
  lt = compared ltb;
  le = compared leb;
  add = computed (λ a b. some (a + b));
  sub = computed difference;
  mul = computed (λ a b. some (a * b / scale));
  div = computed quotient;
  max = larger;
  min = smaller;
  ceil = ceiling;
  of_nat = λ n. some (n * scale);
  to_u64 = whole;
  of_nanos = λ n. some (n / 1000);
}

instance abbrev pub fixed_widening : Widening Fixed Fixed
fixed_widening = record { widen = λ a. a; narrow = λ a. a }

abbrev pub whole_u32 : Fixed → ℕ
whole_u32 none = 0
whole_u32 (some a) = if leb (a / scale) 4_294_967_295 then a / scale else 4_294_967_295

abbrev pub power : Fixed → ℕ → Fixed
power none n = none
power (some a) n = some (a ^ n * scale / scale ^ n)

-- Lengths are only compared in the tests, so a square stands for its root.
instance abbrev pub fixed_geometry : Geometry Fixed
fixed_geometry = record {
  max_value = some 1_000_000_000_000_000_000;
  nan = none;
  infinity = some 1_000_000_000_000_000_000_000_000;
  sqrt = λ a. a;
  powi = power;
  atan2 = λ y x. y;
  to_u32 = whole_u32;
}

div_mono : (a b c : ℕ) → a ≤ b → a / c ≤ b / c
div_mono a b zero h = omega (arith, div-zero a, div-zero b)
div_mono a b (suc c) h =
    (le-div_iff_mul-le (omega arith)).1 (le_trans (div-mul-le_self a (suc c)) h)

decimal_mono :
    (m n k : ℕ)
    → m ≤ n
    → compared leb (some (m * scale / 10 ^ k)) (some (n * scale / 10 ^ k)) ≡ true
decimal_mono m n k h = le→leb _ _ (div_mono (m * scale) (n * scale) (10 ^ k) (omega arith))

pub Fixed-IsOrdered : IsOrdered Fixed
Fixed-IsOrdered = record {
  le_finite = ground arith;
  refl_of_le = ground arith;
  le_trans = ground arith;
  le_of_lt = ground arith;
  lt_not_le = ground arith;
  lt_or_le = ground arith;
  decimal_mono = decimal_mono;
}
