-- ===== src/Base/TreeMap/Order.antt =====
-- The keys of a map stand in increasing order, so each stands once and `length` counts the keys.
use Prim.Native.Nat.{suc, Ordering}
use mathlib.Core.Path.{◌≡◌, refl}
use mathlib.Core.Option.{none}
use mathlib.Core.List.{[], ◌∷◌}
use native.Mathlib.Omega.{arith}
use ruv_drone.Base.Keys.{Key}
use ruv_drone.Base.Tests.{if◌then◌else◌}
use ruv_drone.Base.Lists.{length}
use ruv_drone.Base.TreeMap.{TreeMap, get, contains_key, insert, map_values}

module _ {ℓ κ} {K : Type ℓ} {V : Type κ} ⦃o : Key K⦄ where
  -- Every key of the map is above `k`.
  abbrev pub Above : K → TreeMap K V → Type 0
  Above k [] = Unit
  Above k ((j, v) ∷ m) = (o.cmp k j ≡ Ordering.lt) × Above k m

  abbrev pub IsSorted : TreeMap K V → Type 0
  IsSorted [] = Unit
  IsSorted ((k, v) ∷ m) = Above k m × IsSorted m

  pub get_of_Above : (k : K) (m : TreeMap K V) → Above k m → get k m ≡ none
  unfolding get
  get_of_Above k [] h = refl
  get_of_Above k ((j, v) ∷ m) h = ground (arith, get_of_Above k m h.1)

  pub Above-trans : (i k : K) (m : TreeMap K V) → o.cmp i k ≡ Ordering.lt → Above k m → Above i m
  Above-trans i k [] h a = tt
  Above-trans i k ((j, v) ∷ m) h a = (o.cmp_trans i k j h a.0, Above-trans i k m h a.1)

  Above-insert :
      (i k : K) (v : V) (m : TreeMap K V)
      → o.cmp i k ≡ Ordering.lt
      → Above i m
      → Above i (insert k v m)
  unfolding insert
  Above-insert i k v [] h a = (h, tt)
  Above-insert i k v ((j, w) ∷ m) h a = ground (arith, Above-insert i k v m h a.1)

  pub insert-IsSorted : (k : K) (v : V) (m : TreeMap K V) → IsSorted m → IsSorted (insert k v m)
  unfolding insert
  insert-IsSorted k v [] h = (tt, tt)
  insert-IsSorted k v ((j, w) ∷ m) h = ground (
    arith,
    o.cmp_eq k j,
    o.cmp_flip k j,
    Above-trans k j m,
    Above-insert j k v m,
    insert-IsSorted k v m h.1,
  )

  pub length-insert :
      (k : K) (v : V) (m : TreeMap K V)
      → IsSorted m
      → length (insert k v m) ≡ (if contains_key k m then length m else suc (length m))
  unfolding insert contains_key
  length-insert k v [] h = refl
  length-insert k v ((j, w) ∷ m) h =
      ground (arith, length-insert k v m h.1, Above-trans k j m, get_of_Above k m)

  Above-map_values : (k : K) (f : V → V) (m : TreeMap K V) → Above k m → Above k (map_values f m)
  unfolding map_values
  Above-map_values k f [] a = tt
  Above-map_values k f ((j, v) ∷ m) a = (a.0, Above-map_values k f m a.1)

  pub map_values-IsSorted : (f : V → V) (m : TreeMap K V) → IsSorted m → IsSorted (map_values f m)
  unfolding map_values
  map_values-IsSorted f [] h = tt
  map_values-IsSorted f ((k, v) ∷ m) h = (Above-map_values k f m h.0, map_values-IsSorted f m h.1)

pub length-map_values {ℓ κ} :
    {K : Type ℓ} {V : Type κ} (f : V → V) (m : TreeMap K V) → length (map_values f m) ≡ length m
unfolding map_values
length-map_values f [] = refl
length-map_values f ((k, v) ∷ m) = omega (arith, length-map_values f m)
