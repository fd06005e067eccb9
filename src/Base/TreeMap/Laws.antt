-- ===== src/Base/TreeMap/Laws.antt =====
-- What `get` returns after each of the other operations of a map.
use Prim.Native.Nat.{Ordering, ◌+◌, ◌≤◌}
use mathlib.Core.Path.{◌≡◌, refl}
use mathlib.Core.Logic.{◌⊎◌, inl, inr}
use mathlib.Core.Option
use mathlib.Core.Option.{Option, none, some}
use mathlib.Core.List.{[], ◌∷◌}
use native.Mathlib.Omega.{arith}
use ruv_drone.Base.Keys.{Key}
use ruv_drone.Base.Lists.{length}
use ruv_drone.Base.TreeMap.{TreeMap, get, insert, remove, map_values}

module _ {ℓ κ} {K : Type ℓ} {V : Type κ} ⦃o : Key K⦄ where
  pub get-insert :
      (j k : K) (v : V) (m : TreeMap K V)
      → get j (insert k v m) ≡ (elim (o.cmp j k) [ Ordering.eq ↦ some v | _ ↦ get j m ])
  unfolding get insert
  get-insert j k v [] = refl
  get-insert j k v ((i, w) ∷ m) =
      ground (arith, o.cmp_eq k i, o.cmp_eq j i, o.cmp_eq j k, o.cmp_self k, get-insert j k v m)

  get-insert_of_cmp :
      (j k : K) (v : V) (m : TreeMap K V) (c : Ordering)
      → o.cmp j k ≡ c
      → ((j ≡ k) × (get j (insert k v m) ≡ some v)) ⊎ (get j (insert k v m) ≡ get j m)
  get-insert_of_cmp j k v m Ordering.lt h = inr (rw (get-insert j k v m, h) refl)
  get-insert_of_cmp j k v m Ordering.eq h = inl (o.cmp_eq j k h, rw (get-insert j k v m, h) refl)
  get-insert_of_cmp j k v m Ordering.gt h = inr (rw (get-insert j k v m, h) refl)

  pub get-insert-cases :
      (j k : K) (v : V) (m : TreeMap K V)
      → ((j ≡ k) × (get j (insert k v m) ≡ some v)) ⊎ (get j (insert k v m) ≡ get j m)
  get-insert-cases j k v m = get-insert_of_cmp j k v m (o.cmp j k) refl

  pub get-insert_self : (k : K) (v : V) (m : TreeMap K V) → get k (insert k v m) ≡ some v
  get-insert_self k v m = ground (arith, get-insert k k v m, o.cmp_self k)

  pub get-remove :
      (j k : K) (m : TreeMap K V)
      → get j (remove k m) ≡ (elim (o.cmp j k) [ Ordering.eq ↦ none | _ ↦ get j m ])
  unfolding get remove
  get-remove j k [] = ground arith
  get-remove j k ((i, w) ∷ m) =
      ground (arith, o.cmp_eq k i, o.cmp_eq j i, o.cmp_eq j k, o.cmp_self k, get-remove j k m)

  get-remove_of_cmp :
      (j k : K) (m : TreeMap K V) (c : Ordering)
      → o.cmp j k ≡ c
      → ((j ≡ k) × (get j (remove k m) ≡ none)) ⊎ (get j (remove k m) ≡ get j m)
  get-remove_of_cmp j k m Ordering.lt h = inr (rw (get-remove j k m, h) refl)
  get-remove_of_cmp j k m Ordering.eq h = inl (o.cmp_eq j k h, rw (get-remove j k m, h) refl)
  get-remove_of_cmp j k m Ordering.gt h = inr (rw (get-remove j k m, h) refl)

  pub get-remove-cases :
      (j k : K) (m : TreeMap K V)
      → ((j ≡ k) × (get j (remove k m) ≡ none)) ⊎ (get j (remove k m) ≡ get j m)
  get-remove-cases j k m = get-remove_of_cmp j k m (o.cmp j k) refl

  pub get-remove_self : (k : K) (m : TreeMap K V) → get k (remove k m) ≡ none
  get-remove_self k m = ground (arith, get-remove k k m, o.cmp_self k)

  pub get-map_values :
      (k : K) (f : V → V) (m : TreeMap K V) → get k (map_values f m) ≡ Option.map f (get k m)
  unfolding get map_values
  get-map_values k f [] = refl
  get-map_values k f ((i, w) ∷ m) = ground (arith, get-map_values k f m)

  pub length-insert-le : (k : K) (v : V) (m : TreeMap K V) → length (insert k v m) ≤ length m + 1
  unfolding insert
  length-insert-le k v [] = omega arith
  length-insert-le k v ((i, w) ∷ m) = ground (arith, length-insert-le k v m)

  pub length-remove-le : (k : K) (m : TreeMap K V) → length (remove k m) ≤ length m
  unfolding remove
  length-remove-le k [] = omega arith
  length-remove-le k ((i, w) ∷ m) = ground (arith, length-remove-le k m)
