-- ===== src/Base/TreeMap.antt =====
-- `BTreeMap` and `BTreeSet`: an association list in the order of its keys.
pub mod Laws
pub mod Order
use Prim.Native.Nat.{Ordering}
use mathlib.Core.Bool.{Bool, true, false}
use mathlib.Core.Option.{Option, none, some}
use mathlib.Core.List.{List, [], ◌∷◌}
use ruv_drone.Base.Keys.{Key}
use ruv_drone.Base.Tests.{is_some}

abbrev pub TreeMap {ℓ κ} : Type ℓ → Type κ → Type (ℓ ⊔ κ)
TreeMap K V = List (K × V)

abbrev pub TreeSet {ℓ} : Type ℓ → Type ℓ
TreeSet K = TreeMap K (Unit {0})

abbrev pub empty {ℓ κ} : {K : Type ℓ} {V : Type κ} → TreeMap K V
empty = []

module _ {ℓ κ} {K : Type ℓ} {V : Type κ} ⦃o : Key K⦄ where
  unfoldable pub get : K → TreeMap K V → Option V
  get k [] = none
  get k ((j, v) ∷ m) = elim (o.cmp k j) [ Ordering.eq ↦ some v | _ ↦ get k m ]

  unfoldable pub contains_key : K → TreeMap K V → Bool
  unfolding get
  contains_key k m = is_some (get k m)

  unfoldable pub insert : K → V → TreeMap K V → TreeMap K V
  insert k v [] = (k, v) ∷ []
  insert k v ((j, w) ∷ m) = elim (o.cmp k j) [
    | Ordering.lt ↦ (k, v) ∷ (j, w) ∷ m
    | Ordering.eq ↦ (k, v) ∷ m
    | Ordering.gt ↦ (j, w) ∷ insert k v m
  ]

  -- A key stands at most once, so this drops at most one entry.
  unfoldable pub remove : K → TreeMap K V → TreeMap K V
  remove k [] = []
  remove k ((j, w) ∷ m) = elim (o.cmp k j) [ Ordering.eq ↦ remove k m | _ ↦ (j, w) ∷ remove k m ]

-- `values_mut` over a map: the keys stay.
unfoldable pub map_values {ℓ κ} : {K : Type ℓ} {V : Type κ} → (V → V) → TreeMap K V → TreeMap K V
map_values f [] = []
map_values f ((k, v) ∷ m) = (k, f v) ∷ map_values f m
