-- ===== src/Base/Word.antt =====
-- Machine words: the bounds of `u16`, `u32` and `u64`, wrapping and saturating arithmetic.
use Prim.Native.Nat.{ℕ, ◌+◌, ◌-◌, ◌*◌, ◌%◌}
use ruv_drone.Base.Tests.{leb, if◌then◌else◌}

abbrev pub u16_max : ℕ
u16_max = 65535

abbrev pub u32_max : ℕ
u32_max = 4294967295

abbrev pub u64_max : ℕ
u64_max = 18446744073709551615

-- `x as u16` and the wrap-around of release arithmetic.
abbrev pub u16 : ℕ → ℕ
u16 n = n % 65536

abbrev pub u32 : ℕ → ℕ
u32 n = n % 4294967296

abbrev pub u64 : ℕ → ℕ
u64 n = n % 18446744073709551616

abbrev pub saturate_u64 : ℕ → ℕ
saturate_u64 n = if leb n u64_max then n else u64_max

-- `u64::saturating_add`, `u64::saturating_sub` and `u64::saturating_mul`.
abbrev pub saturating_add : ℕ → ℕ → ℕ
saturating_add a b = saturate_u64 (a + b)

abbrev pub saturating_sub : ℕ → ℕ → ℕ
saturating_sub a b = a - b

abbrev pub saturating_mul : ℕ → ℕ → ℕ
saturating_mul a b = saturate_u64 (a * b)
