-- ===== src/Latentmesh/Protocol/Counting.antt =====
-- Counting the sources of a receive session of src/latentmesh/protocol.rs: how `count_fresh` moves
-- with insertions into either map.
use ruv_drone.Base.{
  ℕ, ◌+◌, ◌≤◌, ◌≡◌, refl, ◌⊎◌, ◌==◌, ◌||◌, not, ◌&&◌, true, false, if◌then◌else◌, [], ◌∷◌, arith,
  nat_key, length,
}
use ruv_drone.Base.TreeMap.{TreeMap, contains_key, get, insert, map_values}
use ruv_drone.Base.TreeMap.Laws.{get-insert, get-map_values}
use ruv_drone.Base.TreeMap.Order.{
  Above-trans, IsSorted, get_of_Above, insert-IsSorted, length-insert, length-map_values,
  map_values-IsSorted,
}
use ruv_drone.Latentmesh.Protocol.Session.{count_fresh}

module _ {V : Type 0} where
  pub contains_key-insert :
      (y x : ℕ) (v : V) (m : TreeMap ℕ V)
      → contains_key y (insert x v m) ≡ (y == x || contains_key y m)
  unfolding contains_key
  contains_key-insert y x v m = ground (arith, get-insert y x v m)

module _ {V : Type 0} {U : Type 0} where
  -- An absent key adds one, unless it is a peer.
  pub count_fresh-insert :
      (p : TreeMap ℕ V) (m : TreeMap ℕ U) (x : ℕ) (i : U)
      → contains_key x m ≡ false
      → count_fresh p (insert x i m) ≡ count_fresh p m + (if contains_key x p then 0 else 1)
  unfolding count_fresh insert contains_key get
  count_fresh-insert p [] x i h = ground arith
  count_fresh-insert p ((k, j) ∷ m) x i h = ground (arith, count_fresh-insert p m x i)

  -- A key that is there is replaced.
  pub count_fresh-replace :
      (p : TreeMap ℕ V) (m : TreeMap ℕ U) (x : ℕ) (i : U)
      → IsSorted m
      → contains_key x m ≡ true
      → count_fresh p (insert x i m) ≡ count_fresh p m
  unfolding count_fresh insert contains_key get
  count_fresh-replace p [] x i s h = cc
  count_fresh-replace p ((k, j) ∷ m) x i s h =
      ground (arith, count_fresh-replace p m x i s.1, Above-trans x k m, get_of_Above x m)

  -- More peers count no more.
  pub count_fresh-le :
      (p : TreeMap ℕ V) (m : TreeMap ℕ U) (x : ℕ) (v : V)
      → count_fresh (insert x v p) m ≤ count_fresh p m
  unfolding count_fresh
  count_fresh-le p [] x v = ground arith
  count_fresh-le p ((k, j) ∷ m) x v =
      ground (arith, count_fresh-le p m x v, contains_key-insert k x v p)

  -- A source that becomes a peer is counted no longer.
  pub count_fresh-lt :
      (p : TreeMap ℕ V) (m : TreeMap ℕ U) (x : ℕ) (v : V)
      → contains_key x m ≡ true
      → contains_key x p ≡ false
      → count_fresh (insert x v p) m + 1 ≤ count_fresh p m
  unfolding count_fresh contains_key get
  count_fresh-lt p [] x v h k = cc
  count_fresh-lt p ((i, j) ∷ m) x v h k =
      ground (arith, count_fresh-lt p m x v, count_fresh-le p m x v, contains_key-insert i x v p)

  pub count_fresh-map_values :
      (p : TreeMap ℕ V) (m : TreeMap ℕ U) (f : V → V)
      → count_fresh (map_values f p) m ≡ count_fresh p m
  unfolding count_fresh contains_key
  count_fresh-map_values p [] f = refl
  count_fresh-map_values p ((k, j) ∷ m) f =
      ground (arith, count_fresh-map_values p m f, get-map_values k f p)

module _ {V : Type 0} {U : Type 0} where
  -- Two maps in order, whose sources together are at most `n`.
  abbrev pub Room : TreeMap ℕ V → TreeMap ℕ U → ℕ → Type 0
  Room p m n = IsSorted p × IsSorted m × (length p + count_fresh p m ≤ n)

  pub Room-replace :
      (p : TreeMap ℕ V) (m : TreeMap ℕ U) (n x : ℕ) (i : U)
      → contains_key x m ≡ true
      → Room p m n
      → Room p (insert x i m) n
  Room-replace p m n x i h (sp, sm, r) =
      (sp, insert-IsSorted x i m sm, rw (count_fresh-replace p m x i sm h) r)

  pub Room-open :
      (p : TreeMap ℕ V) (m : TreeMap ℕ U) (n x : ℕ) (i : U)
      → contains_key x m ≡ false
      → not (contains_key x p) && length p + count_fresh p m == n ≡ false
      → Room p m n
      → Room p (insert x i m) n
  Room-open p m n x i h k (sp, sm, r) =
      (sp, insert-IsSorted x i m sm, ground (arith, count_fresh-insert p m x i h))

  pub Room-admit :
      (p : TreeMap ℕ V) (m : TreeMap ℕ U) (n x : ℕ) (v : V)
      → contains_key x m ≡ true
      → Room p m n
      → Room (insert x v p) m n
  Room-admit p m n x v h (sp, sm, r) = (
    insert-IsSorted x v p sp,
    sm,
    ground (arith, length-insert x v p sp, count_fresh-le p m x v, count_fresh-lt p m x v h),
  )

  pub Room-restore :
      (p : TreeMap ℕ V) (m : TreeMap ℕ U) (n x : ℕ) (v : V)
      → (contains_key x p ≡ true) ⊎ (length p + count_fresh p m == n ≡ false)
      → Room p m n
      → Room (insert x v p) m n
  Room-restore p m n x v h (sp, sm, r) =
      (insert-IsSorted x v p sp, sm, ground (arith, length-insert x v p sp, count_fresh-le p m x v))

  pub Room-map_values :
      (p : TreeMap ℕ V) (m : TreeMap ℕ U) (n : ℕ) (f : V → V)
      → Room p m n
      → Room (map_values f p) m n
  Room-map_values p m n f (sp, sm, r) =
      (map_values-IsSorted f p sp, sm, rw (count_fresh-map_values p m f, length-map_values f p) r)
