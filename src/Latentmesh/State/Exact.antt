-- ===== src/Latentmesh/State/Exact.antt =====
-- A map and numbers that meet what src/latentmesh/state.rs asks of them, for the tests: a list of
-- fields, and signed multiples of 1/65536.
use ruv_drone.Base.{
  ℕ, zero, suc, ◌+◌, ◌-◌, ◌*◌, ◌/◌, ◌^◌, refl, Bool, true, false, leb, ◌==◌, if◌then◌else◌, List,
  [], ◌∷◌, Option, none, some, ok, arith, contains, is_some, ◌≡◌,
}
use ruv_drone.Base.Float.{Float, Widening}
use ruv_drone.Latentmesh.State.Symbols.{ℤ, IsFieldMap, Rounding, Symbols, negsuc, pos}

abbrev one : ℕ
one = 65_536

abbrev signed : Bool → ℕ → ℤ
signed false n = pos n
signed true zero = pos zero
signed true (suc n) = negsuc n

abbrev is_negative : ℤ → Bool
is_negative (pos n) = false
is_negative (negsuc n) = true

abbrev magnitude : ℤ → ℕ
magnitude (pos n) = n
magnitude (negsuc n) = suc n

abbrev le : ℤ → ℤ → Bool
le (pos a) (pos b) = leb a b
le (pos a) (negsuc b) = false
le (negsuc a) (pos b) = true
le (negsuc a) (negsuc b) = leb b a

abbrev lt : ℤ → ℤ → Bool
lt a b = elim (le b a) [ true ↦ false | false ↦ true ]

abbrev negated : ℤ → ℤ
negated a = signed (elim (is_negative a) [ true ↦ false | false ↦ true ]) (magnitude a)

abbrev sum : ℤ → ℤ → ℤ
sum (pos a) (pos b) = pos (a + b)
sum (pos a) (negsuc b) = if leb a b then negsuc (b - a) else pos (a - suc b)
sum (negsuc a) (pos b) = if leb b a then negsuc (a - b) else pos (b - suc a)
sum (negsuc a) (negsuc b) = negsuc (suc (a + b))

abbrev with_signs : (ℕ → ℕ → ℕ) → ℤ → ℤ → ℤ
with_signs f a b =
    signed
      (elim (is_negative a) [
        | true ↦ elim (is_negative b) [ true ↦ false | false ↦ true ]
        | false ↦ is_negative b
      ])
      (f (magnitude a) (magnitude b))

instance abbrev pub exact_float : Float ℤ
exact_float = record {
  decimal = λ m k. pos (m * one / 10 ^ k);
  neg = negated;
  is_finite = λ a. true;
  lt = lt;
  le = le;
  add = sum;
  sub = λ a b. sum a (negated b);
  mul = with_signs (λ a b. a * b / one);
  div = with_signs (λ a b. a * one / b);
  max = λ a b. if le a b then b else a;
  min = λ a b. if le a b then a else b;
  ceil = λ a. signed (is_negative a) ((magnitude a + 65_535) / one * one);
  of_nat = λ n. pos (n * one);
  to_u64 = λ a. if is_negative a then 0 else magnitude a / one;
  of_nanos = λ n. pos (n * one / 1_000_000_000);
}

instance abbrev pub exact_rounding : Rounding ℤ
exact_rounding = record {
  tau = pos 411_774;
  round = λ a. a;
  of_i32 = λ n. signed (is_negative n) (magnitude n * one);
  to_i32 = λ a. signed (is_negative a) (magnitude a / one);
}

instance abbrev pub exact_widening : Widening ℤ ℤ
exact_widening = record { widen = λ a. a; narrow = λ a. a }

pub data Value : Type 0 where
  u64 : ℕ → Value
  q16 : ℤ → Value

abbrev pub read_u64 : Value → Option ℕ
read_u64 (u64 n) = some n
read_u64 (q16 n) = none

abbrev pub read_q16 : Value → Option ℤ
read_q16 (u64 n) = none
read_q16 (q16 n) = some n

abbrev lookup : List (ℕ × Value) → ℕ → Option Value
lookup [] j = none
lookup ((i, v) ∷ m) j = if j == i then some v else lookup m j

abbrev ids : List (ℕ × Value) → List ℕ
ids [] = []
ids ((i, v) ∷ m) = i ∷ ids m

abbrev pub listed : Symbols Unit (List (ℕ × Value))
listed = record {
  Symbol = Value;
  u64_symbol = u64;
  q16_symbol = q16;
  as_u64 = read_u64;
  as_q16 = read_q16;
  new = [];
  set = λ m i v. ok ((i, v) ∷ m);
  get = lookup;
  field_ids = ids;
}

contains-ids : (m : List (ℕ × Value)) (i : ℕ) → contains i (ids m) ≡ is_some (lookup m i)
contains-ids [] i = refl
contains-ids ((j, v) ∷ m) i = ground (arith, contains-ids m i)

pub listed-IsFieldMap : IsFieldMap listed
listed-IsFieldMap = record {
  as_u64-u64_symbol = λ n. refl;
  as_q16-q16_symbol = λ n. refl;
  get-new = λ i. refl;
  get-set = λ c d i j v h. ground arith;
  contains-field_ids = contains-ids;
}
