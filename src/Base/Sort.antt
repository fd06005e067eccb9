-- ===== src/Base/Sort.antt =====
-- `slice::sort_by` where the comparison is a total order: the stable sort, as an insertion sort. An
-- element goes in front of those that it equals, and elements are inserted from the last to the
-- first. Of another comparison the standard library promises no order and may panic.
use Prim.Native.Nat.{Ordering}
use mathlib.Core.Path.{◌≡◌}
use mathlib.Core.Logic.{◌≢◌}
use mathlib.Core.List.{List, [], ◌∷◌, Perm}
use mathlib.Core.List.Perm
use native.Mathlib.Omega.{arith}
use ruv_drone.Base.Lists.{All}

module _ {ℓ} {A : Type ℓ} (cmp : A → A → Ordering) where
  unfoldable pub insert_by : A → List A → List A
  insert_by x [] = x ∷ []
  insert_by x (y ∷ ys) =
      let rest = insert_by x ys in elim (cmp x y) [ Ordering.gt ↦ y ∷ rest | _ ↦ x ∷ y ∷ ys ]

  unfoldable pub sort_by : List A → List A
  unfolding insert_by
  sort_by [] = []
  sort_by (x ∷ xs) = insert_by x (sort_by xs)

  insert_by-perm : (x : A) (ys : List A) → Perm (insert_by x ys) (x ∷ ys)
  unfolding insert_by
  insert_by-perm x [] = Perm.refl (x ∷ [])
  insert_by-perm x (y ∷ ys) =
      elim (cmp x y)
        as (λ o. Perm (elim o [ Ordering.gt ↦ y ∷ insert_by x ys | _ ↦ x ∷ y ∷ ys ]) (x ∷ y ∷ ys)) [
          | Ordering.gt ↦ Perm.trans (Perm.cons y (insert_by-perm x ys)) (Perm.swap x y ys)
          | _ ↦ Perm.refl (x ∷ y ∷ ys)
        ]

  pub sort_by-perm : (xs : List A) → Perm (sort_by xs) xs
  unfolding sort_by
  sort_by-perm [] = Perm.refl []
  sort_by-perm (x ∷ xs) = Perm.trans (insert_by-perm x (sort_by xs)) (Perm.cons x (sort_by-perm xs))

  -- Each element stands before one that it does not exceed.
  abbrev pub IsSorted : List A → Type 0
  IsSorted [] = Unit
  IsSorted (x ∷ []) = Unit
  IsSorted (x ∷ y ∷ ys) = (cmp x y ≢ Ordering.gt) × IsSorted (y ∷ ys)

  -- Of two elements that are apart, the comparison says the same from both sides.
  abbrev pub IsTotal {κ} : (A → Type κ) → Type (ℓ ⊔ κ)
  IsTotal P = (x y : A) → P x → P y → cmp x y ≡ Ordering.gt → cmp y x ≢ Ordering.gt

  All-insert_by {κ} :
      (P : A → Type κ) (x : A) (ys : List A) → P x → All P ys → All P (insert_by x ys)
  unfolding insert_by
  All-insert_by P x [] p h = (p, tt)
  All-insert_by P x (y ∷ ys) p h = ground (arith, All-insert_by P x ys p h.1)

  pub All-sort_by {κ} : (P : A → Type κ) (xs : List A) → All P xs → All P (sort_by xs)
  unfolding sort_by
  All-sort_by P [] h = tt
  All-sort_by P (x ∷ xs) h = All-insert_by P x (sort_by xs) h.0 (All-sort_by P xs h.1)

  insert_by-IsSorted {κ} :
      (P : A → Type κ) (total : IsTotal P) (x : A) (ys : List A)
      → P x
      → All P ys
      → IsSorted ys
      → IsSorted (insert_by x ys)
  unfolding insert_by
  insert_by-IsSorted P total x [] p h s = tt
  insert_by-IsSorted P total x (y ∷ []) p h s = ground (arith, total x y p h.0)
  insert_by-IsSorted P total x (y ∷ z ∷ zs) p h s =
      ground (arith, total x y p h.0, insert_by-IsSorted P total x (z ∷ zs) p h.1 s.1)

  pub sort_by-IsSorted {κ} :
      (P : A → Type κ) (total : IsTotal P) (xs : List A) → All P xs → IsSorted (sort_by xs)
  unfolding sort_by
  sort_by-IsSorted P total [] h = tt
  sort_by-IsSorted P total (x ∷ xs) h =
      insert_by-IsSorted P total x (sort_by xs) h.0 (All-sort_by P xs h.1)
        (sort_by-IsSorted P total xs h.1)

  -- A total order on the elements that meet `P`: the two sides agree, and it is transitive.
  pub record IsTotalOrder {κ} (P : A → Type κ) : Type (ℓ ⊔ κ) where
    pub flip_gt : (x y : A) → P x → P y → cmp x y ≡ Ordering.gt → cmp y x ≡ Ordering.lt
    pub flip_lt : (x y : A) → P x → P y → cmp x y ≡ Ordering.lt → cmp y x ≡ Ordering.gt
    pub trans :
        (x y z : A)
        → P x
        → P y
        → P z
        → cmp x y ≢ Ordering.gt
        → cmp y z ≢ Ordering.gt
        → cmp x z ≢ Ordering.gt

-- What the standard library promises of a sort: where the comparison is a total order on the
-- elements, the same elements come back in order.
abbrev pub Sorts : {A : Type 0} → ((A → A → Ordering) → List A → List A) → Type 1
Sorts {A} sort =
    (cmp : A → A → Ordering) (P : A → Type 0) (xs : List A)
    → IsTotalOrder cmp P
    → All P xs
    → Perm (sort cmp xs) xs × IsSorted cmp (sort cmp xs) × All P (sort cmp xs)

pub sort_by-Sorts : (A : Type 0) → Sorts (sort_by {A = A})
sort_by-Sorts A cmp P xs o h = (
  sort_by-perm cmp xs,
  sort_by-IsSorted cmp P (λ x y p q e k. cc (o.flip_gt x y p q e, k)) xs h,
  All-sort_by cmp P xs h,
)
