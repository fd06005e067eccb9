-- ===== src/Base/Members.antt =====
-- Membership of a list of numbers, as a test.
use Prim.Native.Nat.{ℕ}
use mathlib.Core.Path.{◌≡◌, refl}
use mathlib.Core.Bool.{Bool, true, false, ◌||◌}
use mathlib.Core.List.{List, [], ◌∷◌}
use mathlib.Core.Option.{Option, none, some}
use native.Mathlib.Omega.{arith}
use ruv_drone.Base.Tests.{◌==◌}
use ruv_drone.Base.Lists.{All}

abbrev pub contains : ℕ → List ℕ → Bool
contains i [] = false
contains i (j ∷ js) = (i == j) || contains i js

-- `Iterator::find` of a number that fails a test.
abbrev pub find_not : (ℕ → Bool) → List ℕ → Option ℕ
find_not p [] = none
find_not p (i ∷ is) = elim (p i) [ true ↦ find_not p is | false ↦ some i ]

pub All-of_find_not : (p : ℕ → Bool) (is : List ℕ) → find_not p is ≡ none → All (λ i. p i ≡ true) is
All-of_find_not p [] h = tt
All-of_find_not p (i ∷ is) h = (ground arith, All-of_find_not p is (ground arith))

pub find_not_none : (p : ℕ → Bool) (is : List ℕ) → All (λ i. p i ≡ true) is → find_not p is ≡ none
find_not_none p [] h = refl
find_not_none p (i ∷ is) h = ground (arith, find_not_none p is h.1)

pub All-of_contains :
    (P : ℕ → Type 0) (is : List ℕ) → ((i : ℕ) → contains i is ≡ true → P i) → All P is
All-of_contains P [] f = tt
All-of_contains P (i ∷ is) f =
    (f i (ground arith), All-of_contains P is (λ j h. f j (ground arith)))

pub contains-All : (P : ℕ → Type 0) (is : List ℕ) (i : ℕ) → contains i is ≡ true → All P is → P i
contains-All P [] i h a = cc
contains-All P (j ∷ js) i h a = ground (arith, contains-All P js i)
