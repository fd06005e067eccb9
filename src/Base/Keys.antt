-- ===== src/Base/Keys.antt =====
-- Keys of an ordered map (`Ord` in the source): a three-way comparison and its laws.
use Prim.Native.Nat.{ℕ, compare, Ordering}
use mathlib.Core.Path.{◌≡◌}
use native.Mathlib.Omega.{arith}

pub record Key {ℓ} (K : Type ℓ) : Type ℓ where
  pub cmp : K → K → Ordering
  pub cmp_eq : (a b : K) → cmp a b ≡ Ordering.eq → a ≡ b
  pub cmp_self : (a : K) → cmp a a ≡ Ordering.eq
  pub cmp_flip : (a b : K) → cmp a b ≡ Ordering.gt → cmp b a ≡ Ordering.lt
  pub cmp_trans :
      (a b c : K) → cmp a b ≡ Ordering.lt → cmp b c ≡ Ordering.lt → cmp a c ≡ Ordering.lt

pub nat_eq : (a b : ℕ) → compare a b ≡ Ordering.eq → a ≡ b
nat_eq a b h = ground arith

pub nat_self : (a : ℕ) → compare a a ≡ Ordering.eq
nat_self a = ground arith

pub nat_flip : (a b : ℕ) → compare a b ≡ Ordering.gt → compare b a ≡ Ordering.lt
nat_flip a b h = ground arith

pub nat_trans :
    (a b c : ℕ) → compare a b ≡ Ordering.lt → compare b c ≡ Ordering.lt → compare a c ≡ Ordering.lt
nat_trans a b c h k = ground arith

instance abbrev pub nat_key : Key ℕ
nat_key = record {
  cmp = compare;
  cmp_eq = nat_eq;
  cmp_self = nat_self;
  cmp_flip = nat_flip;
  cmp_trans = nat_trans;
}

-- Pairs of numbers in lexicographic order.
abbrev pub compare_pair : ℕ × ℕ → ℕ × ℕ → Ordering
compare_pair p q = elim (compare p.0 q.0) [
  | Ordering.lt ↦ Ordering.lt
  | Ordering.eq ↦ compare p.1 q.1
  | Ordering.gt ↦ Ordering.gt
]

pub pair_eq : (a b : ℕ × ℕ) → compare_pair a b ≡ Ordering.eq → a ≡ b
pair_eq a b h = ground arith

pub pair_self : (a : ℕ × ℕ) → compare_pair a a ≡ Ordering.eq
pair_self a = ground arith

pub pair_flip : (a b : ℕ × ℕ) → compare_pair a b ≡ Ordering.gt → compare_pair b a ≡ Ordering.lt
pair_flip a b h = ground arith

pub pair_trans :
    (a b c : ℕ × ℕ)
    → compare_pair a b ≡ Ordering.lt
    → compare_pair b c ≡ Ordering.lt
    → compare_pair a c ≡ Ordering.lt
pair_trans a b c h k = ground arith

instance abbrev pub pair_key : Key (ℕ × ℕ)
pair_key = record {
  cmp = compare_pair;
  cmp_eq = pair_eq;
  cmp_self = pair_self;
  cmp_flip = pair_flip;
  cmp_trans = pair_trans;
}
