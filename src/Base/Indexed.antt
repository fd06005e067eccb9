-- ===== src/Base/Indexed.antt =====
-- Ranges, and lists read and written at an index, under the library's names.
use Prim.Native.Nat.{ℕ, zero, suc, ◌+◌, ◌<◌, ◌≤◌}
use mathlib.Core.Path.{◌≡◌, refl, ap, subst, sym}
use mathlib.Core.Logic.{◌⊎◌, inl, inr}
use mathlib.Core.Bool.{Bool, true, false}
use mathlib.Core.List.{List, [], ◌∷◌}
use mathlib.Core.Option.{Option, none, some}
use native.Mathlib.Omega.{arith}
use ruv_drone.Base.Lists.{All, count, length}
use ruv_drone.Base.Tests.{Bool-cases}

-- `0..n`.
abbrev pub range_from : ℕ → ℕ → List ℕ
range_from i zero = []
range_from i (suc n) = i ∷ range_from (i + 1) n

abbrev pub range : ℕ → List ℕ
range n = range_from 0 n

-- `(0..n).rev()`.
abbrev pub range_rev : ℕ → List ℕ
range_rev zero = []
range_rev (suc n) = n ∷ range_rev n

abbrev pub get_elem? {ℓ} : {A : Type ℓ} → List A → ℕ → Option A
get_elem? [] i = none
get_elem? (x ∷ xs) zero = some x
get_elem? (x ∷ xs) (suc i) = get_elem? xs i

-- An assignment through `&mut xs[i]`.
abbrev pub modify {ℓ} : {A : Type ℓ} → (A → A) → ℕ → List A → List A
modify f i [] = []
modify f zero (x ∷ xs) = f x ∷ xs
modify f (suc i) (x ∷ xs) = x ∷ modify f i xs

-- `Iterator::find`.
abbrev pub find {ℓ} : {A : Type ℓ} → (A → Bool) → List A → Option A
find p [] = none
find p (x ∷ xs) = elim (p x) [ true ↦ some x | false ↦ find p xs ]

abbrev pub option_map {ℓ κ} : {A : Type ℓ} {B : Type κ} → (A → B) → Option A → Option B
option_map f none = none
option_map f (some a) = some (f a)

-- Whether there is an element and it meets a test, as a number.
abbrev pub weight {ℓ} : {A : Type ℓ} → (A → Bool) → Option A → ℕ
weight p none = 0
weight p (some a) = elim (p a) [ true ↦ 1 | false ↦ 0 ]

module _ {ℓ} {A : Type ℓ} where
  pub count-modify :
      (p : A → Bool) (f : A → A) (i : ℕ) (xs : List A)
      → count p (modify f i xs) + weight p (get_elem? xs i)
        ≡ count p xs + weight p (option_map f (get_elem? xs i))
  count-modify p f i [] = refl
  count-modify p f zero (x ∷ xs) = ground arith
  count-modify p f (suc i) (x ∷ xs) = ground (arith, count-modify p f i xs)

  pub length-modify : (f : A → A) (i : ℕ) (xs : List A) → length (modify f i xs) ≡ length xs
  length-modify f i [] = refl
  length-modify f zero (x ∷ xs) = refl
  length-modify f (suc i) (x ∷ xs) = ap suc (length-modify f i xs)

  pub All-modify {κ} :
      (P : A → Type κ) (f : A → A) (i : ℕ) (xs : List A)
      → ((x : A) → P x → P (f x))
      → All P xs
      → All P (modify f i xs)
  All-modify P f i [] h a = tt
  All-modify P f zero (x ∷ xs) h a = (h x a.0, a.1)
  All-modify P f (suc i) (x ∷ xs) h a = (a.0, All-modify P f i xs h a.1)

  pub find-some : (p : A → Bool) (xs : List A) {a : A} → find p xs ≡ some a → p a ≡ true
  find-some p [] h = cc
  find-some p (x ∷ xs) h = elim (Bool-cases (p x)) [
    | inl t ↦ subst (λ a. p a ≡ true) (ground arith) t
    | inr t ↦ find-some p xs (ground arith)
  ]

  pub find-All {κ} :
      (P : A → Type κ) (p : A → Bool) (xs : List A) {a : A} → All P xs → find p xs ≡ some a → P a
  find-All P p [] h e = cc
  find-All P p (x ∷ xs) h e = elim (Bool-cases (p x)) [
    | inl t ↦ subst P (ground arith) h.0
    | inr t ↦ find-All P p xs h.1 (ground arith)
  ]

  pub find-none : (p : A → Bool) (xs : List A) → find p xs ≡ none → All (λ a. p a ≡ false) xs
  find-none p [] h = tt
  find-none p (x ∷ xs) h = (ground arith, find-none p xs (ground arith))

pub All-range_from {κ} :
    (P : ℕ → Type κ) (i n : ℕ) → ((j : ℕ) → i ≤ j → j < i + n → P j) → All P (range_from i n)
All-range_from P i zero h = tt
All-range_from P i (suc n) h = (
  h i (omega arith) (omega arith),
  All-range_from P (i + 1) n (λ j l g. h j (omega arith) (omega arith)),
)

pub All-range_rev {κ} : (P : ℕ → Type κ) (n : ℕ) → ((j : ℕ) → j < n → P j) → All P (range_rev n)
All-range_rev P zero h = tt
All-range_rev P (suc n) h = (h n (omega arith), All-range_rev P n (λ j l. h j (omega arith)))

le_cases : (i j : ℕ) → i ≤ j → (i ≡ j) ⊎ (i + 1 ≤ j)
le_cases i j h = omega arith

pub range_from-All {κ} :
    (P : ℕ → Type κ) (i n j : ℕ) → All P (range_from i n) → i ≤ j → j < i + n → P j
range_from-All P i zero j a l g = absurd (omega arith)
range_from-All P i (suc n) j a l g = elim (le_cases i j l) [
  | inl e ↦ subst P e a.0
  | inr e ↦ range_from-All P (i + 1) n j a.1 e (omega arith)
]

pub range_rev-All {κ} : (P : ℕ → Type κ) (n j : ℕ) → All P (range_rev n) → j < n → P j
range_rev-All P zero j a l = absurd (omega arith)
range_rev-All P (suc n) j a l = elim (le_cases j n (omega arith)) [
  | inl e ↦ subst P (sym e) a.0
  | inr e ↦ range_rev-All P n j a.1 (omega arith)
]
