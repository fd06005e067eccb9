-- ===== src/Latentmesh/State/Symbols.antt =====
-- What src/latentmesh/state.rs uses of `CriticalState` and `SymbolValue`, which belong to the crate
-- `latentmesh_air_core`, and of the conversions of `f64` beside its arithmetic.
use ruv_drone.Base.{
  ℕ, ◌≡◌, ◌==◌, if◌then◌else◌, List, Option, none, some, is_some, Result, ok, contains,
}

-- `i32`, as the integer that it is.
pub data ℤ : Type 0 where
  pos negsuc : ℕ → ℤ

-- A map from field identifiers to symbols. `as_u64` and `as_q16` are the patterns
-- `SymbolValue::U64(v)` and `SymbolValue::Q16_16(v)`, `field_ids` the keys of `iter`.
pub record Symbols (A C : Type 0) : Type 1 where
  pub Symbol : Type 0
  pub u64_symbol : ℕ → Symbol
  pub q16_symbol : ℤ → Symbol
  pub as_u64 : Symbol → Option ℕ
  pub as_q16 : Symbol → Option ℤ
  pub new : C
  pub set : C → ℕ → Symbol → Result A C
  pub get : C → ℕ → Option Symbol
  pub field_ids : C → List ℕ

-- What is used of it: a set field reads back, the others are left alone, and the iteration yields
-- the fields that have a symbol.
pub record IsFieldMap {A C : Type 0} (y : Symbols A C) : Type 0 where
  pub as_u64-u64_symbol : (n : ℕ) → y.as_u64 (y.u64_symbol n) ≡ some n
  pub as_q16-q16_symbol : (n : ℤ) → y.as_q16 (y.q16_symbol n) ≡ some n
  pub get-new : (i : ℕ) → y.get y.new i ≡ none
  pub get-set :
      (c d : C) (i j : ℕ) (v : y.Symbol)
      → y.set c i v ≡ ok d
      → y.get d j ≡ (if j == i then some v else y.get c j)
  pub contains-field_ids : (c : C) (i : ℕ) → contains i (y.field_ids c) ≡ is_some (y.get c i)

-- `f64::round`, the casts between `f64` and `i32`, and 2 pi.
pub record Rounding (D : Type 0) : Type 0 where
  pub tau : D
  pub round : D → D
  pub of_i32 : ℤ → D
  pub to_i32 : D → ℤ
