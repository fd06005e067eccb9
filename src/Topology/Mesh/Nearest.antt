-- ===== src/Topology/Mesh/Nearest.antt =====
-- What `nearest_k` of src/topology/mesh.rs returns.
use ruv_drone.Base.{
  ℕ, List, [], ◌∷◌, some, not, ◌==◌, map, nat_key, ◌≡◌, ◌≢◌, AllPairs, Bool-cases, inl, inr, true,
  false, Ordering, refl, subst, sym, arith, take, All, All-imp, All-select, All-take,
}
use mathlib.Core.List.{Perm}
use ruv_drone.Base.Float.{Float, Geometry, IsOrdered}
use ruv_drone.Base.Sort.{IsSorted, IsTotalOrder, Sorts}
use ruv_drone.Base.TreeMap.{TreeMap, get}
use ruv_drone.Types.{DroneState}
use ruv_drone.Topology.Mesh.{MeshTopology, compare_distances, distances, nearest_k}

module _ {A C : Type 0} where
  All-map : (P : C → Type 0) (f : A → C) (xs : List A) → All (λ x. P (f x)) xs → All P (map f xs)
  All-map P f [] h = tt
  All-map P f (x ∷ xs) h = (h.0, All-map P f xs h.1)

All-both :
    {A : Type 0} (P Q : A → Type 0) (xs : List A) → All P xs → All Q xs → All (λ x. P x × Q x) xs
All-both P Q [] p q = tt
All-both P Q (x ∷ xs) p q = ((p.0, q.0), All-both P Q xs p.1 q.1)

All-unit : {A : Type 0} (xs : List A) → All (λ _. Unit {0}) xs
All-unit [] = tt
All-unit (x ∷ xs) = (tt, All-unit xs)

module _ {D : Type 0} ⦃d : Float D⦄ (o : IsOrdered D) where
  -- A distance that is a number, which is `<=` itself.
  abbrev IsNumber : D × ℕ → Type 0
  IsNumber p = d.le p.0 p.0 ≡ true

  le_of_not_gt :
      (p q : D × ℕ)
      → IsNumber p
      → IsNumber q
      → compare_distances p q ≢ Ordering.gt
      → d.le p.0 q.0 ≡ true
  le_of_not_gt p q m n h = elim (Bool-cases (d.lt p.0 q.0)) [
    | inl e ↦ o.le_of_lt p.0 q.0 e
    | inr e ↦ elim (o.lt_or_le q.0 p.0 n m) [
      | inl k ↦ absurd (h (ground (arith, e, k)))
      | inr k ↦ k
    ]
  ]

  not_gt_of_le : (p q : D × ℕ) → d.le p.0 q.0 ≡ true → compare_distances p q ≢ Ordering.gt
  not_gt_of_le p q h = elim (Bool-cases (d.lt q.0 p.0)) [
    | inl e ↦ absurd (cc (o.lt_not_le q.0 p.0 e, h))
    | inr e ↦ ground (arith, e)
  ]

  not_both : (p q : D × ℕ) → d.lt p.0 q.0 ≡ true → d.lt q.0 p.0 ≡ false
  not_both p q h = elim (Bool-cases (d.lt q.0 p.0)) [
    | inl e ↦ absurd (cc (o.lt_not_le p.0 q.0 h, o.le_of_lt q.0 p.0 e))
    | inr e ↦ e
  ]

  compare_distances-IsTotalOrder :
      (from : ℕ) → IsTotalOrder compare_distances (λ p. IsNumber p × (p.1 ≢ from))
  compare_distances-IsTotalOrder from = record {
    flip_gt = λ p q m n h. ground (arith, h);
    flip_lt = λ p q m n h. elim (Bool-cases (d.lt p.0 q.0)) [
      | inl e ↦ let k = not_both p q e in ground (arith, e, k)
      | inr e ↦ absurd (ground (arith, e, h))
    ];
    trans = λ p q r m n l h k.
        not_gt_of_le p r
          (o.le_trans p.0 q.0 r.0 (le_of_not_gt p q m.0 n.0 h) (le_of_not_gt q r n.0 l.0 k));
  }

  in_order :
      (from : ℕ) (ps : List (D × ℕ))
      → All (λ p. IsNumber p × (p.1 ≢ from)) ps
      → IsSorted compare_distances ps
      → AllPairs (λ p q. d.le p.0 q.0 ≡ true) ps
  in_order from [] a s = tt
  in_order from (p ∷ []) a s = (tt, tt)
  in_order from (p ∷ q ∷ ps) a s =
      let le = le_of_not_gt p q a.0.0 a.1.0.0 s.0 in
      let rest = in_order from (q ∷ ps) a.1 s.1 in
      ((le, All-imp ps (λ r h. o.le_trans p.0 q.0 r.0 le h) rest.0), rest)

module _ {D B : Type 0} ⦃d : Float D⦄ ⦃g : Geometry D⦄ where
  distances-others :
      (origin : DroneState D B) (from : ℕ) (nodes : TreeMap ℕ (DroneState D B))
      → All (λ p. p.1 ≢ from) (distances origin from nodes)
  distances-others origin from nodes =
      All-map (λ p. p.1 ≢ from) _ _
        (All-imp _ (λ e h. ground (arith, h.1))
          (All-select (λ _. Unit {0}) (λ e. not (e.0 == from)) nodes (All-unit nodes)))

  -- From a known node with distances to the others that are numbers, whatever sort keeps what the
  -- standard library promises, nearest_k gives the first of the other nodes by distance: as many
  -- as asked for or all that there are, and never the node itself.
  pub nearest_k-IsSorted :
      (o : IsOrdered D) (sort : (D × ℕ → D × ℕ → Ordering) → List (D × ℕ) → List (D × ℕ))
      (t : MeshTopology D B) (from k : ℕ) (origin : DroneState D B)
      → Sorts sort
      → get from t.nodes ≡ some origin
      → All (λ p. d.le p.0 p.0 ≡ true) (distances origin from t.nodes)
      → (all : List (D × ℕ)) × Perm all (distances origin from t.nodes)
        × AllPairs (λ p q. d.le p.0 q.0 ≡ true) all
        × (nearest_k sort t from k ≡ map (λ p. p.1) (take k all))
        × All (λ id. id ≢ from) (nearest_k sort t from k)
  unfolding nearest_k
  nearest_k-IsSorted o sort t from k origin sorts h numbers =
      let others = distances origin from t.nodes in
      let all = sort compare_distances others in
      let same : nearest_k sort t from k ≡ map (λ p. p.1) (take k all) = rw (h) refl in
      let (perm, sorted, kept) =
        sorts compare_distances _ others (compare_distances-IsTotalOrder o from) (
          All-both (λ p. d.le p.0 p.0 ≡ true) (λ p. p.1 ≢ from) others numbers
            (distances-others origin from t.nodes)) in
      (
        all,
        perm,
        in_order o from all kept sorted,
        same,
        subst (λ z. All (λ id. id ≢ from) z) (sym same)
            (All-map (λ id. id ≢ from) (λ (p : D × ℕ). p.1) (take k all)
              (All-take (λ p. p.1 ≢ from) k all (All-imp all (λ p q. q.1) kept))),
      )
