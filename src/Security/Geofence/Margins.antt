-- ===== src/Security/Geofence/Margins.antt =====
-- What src/security/geofence.rs promises of a position that is not a breach.
use ruv_drone.Base.{
  List, [], ◌∷◌, Option, none, some, true, false, last?, All, All-imp, Any, Any-imp, subst, ◌⊎◌,
  ◌≡◌, refl, sym, arith, Bool-cases, Option-cases, inl, inr,
}
use ruv_drone.Base.Float.{Float, Geometry, IsOrdered}
use ruv_drone.Types.{Position3D}
use ruv_drone.Security.Geofence.{
  Geofence, GeofenceResult, by_distance, check, distance_to_boundary, edge_dist, hard_breach,
  is_not_finite, is_out_of_band, least_from, least_of, point_in_polygon, safe, soft_warning,
}

-- The edges of a polygon, each from a vertex to the next, the last one to the first.
abbrev pub edges_from : {V : Type 0} → V → List V → List (V × V)
edges_from previous [] = []
edges_from previous (vertex ∷ rest) = (previous, vertex) ∷ edges_from vertex rest

abbrev pub edges_after : {V : Type 0} → Option V → List V → List (V × V)
edges_after none vertices = []
edges_after (some last) vertices = edges_from last vertices

abbrev pub edges : {V : Type 0} → List V → List (V × V)
edges vertices = edges_after (last? vertices) vertices

module _ {D : Type 0} ⦃d : Float D⦄ ⦃g : Geometry D⦄ where
  -- Some edge of the boundary is at a distance that meets a test.
  abbrev pub HasEdge : Geofence D → Position3D D → (D → Type 0) → Type 0
  HasEdge fence pos P = Any (λ (a, b). P (edge_dist pos.x pos.y a b)) (edges fence.boundary)

  -- No edge of the boundary is at a distance that compares as within a margin.
  abbrev IsNotWithin : Geofence D → Position3D D → D → Type 0
  IsNotWithin fence pos margin =
      All (λ (a, b). d.le (edge_dist pos.x pos.y a b) margin ≡ false) (edges fence.boundary)

  -- Not a number: the one value that is not `<=` itself.
  abbrev pub IsNan : D → Type 0
  IsNan x = d.le x x ≡ false

  -- Every edge is farther than a margin, or has no distance, as of a vertex that is not a number.
  abbrev pub IsAway : Geofence D → Position3D D → D → Type 0
  IsAway fence pos margin =
      All
        (λ (a, b).
          let dist = edge_dist pos.x pos.y a b in
          (d.lt margin dist ≡ true) ⊎ IsNan dist ⊎ IsNan margin)
        (edges fence.boundary)

  module _ (o : IsOrdered D) where
    le_nearer :
        (dist least margin : D)
        → d.lt dist least ≡ true
        → d.le dist margin ≡ false
        → d.le least margin ≡ false
    le_nearer dist least margin h k = elim (Bool-cases (d.le least margin)) [
      | inl e ↦ absurd (cc (o.le_trans dist least margin (o.le_of_lt dist least h) e, k))
      | inr e ↦ e
    ]

    le_farther :
        (dist least margin : D)
        → d.le least least ≡ true
        → d.lt dist least ≡ false
        → d.le least margin ≡ false
        → d.le dist margin ≡ false
    le_farther dist least margin s h k = elim (Bool-cases (d.le dist margin)) [
      | inl e ↦ elim (o.lt_or_le dist least (o.refl_of_le dist margin e).0 s) [
        | inl l ↦ absurd (cc (l, h))
        | inr l ↦ absurd (cc (o.le_trans least dist margin l e, k))
      ]
      | inr e ↦ e
    ]

    farther :
        (dist margin : D)
        → d.le dist margin ≡ false
        → (d.lt margin dist ≡ true) ⊎ IsNan dist ⊎ IsNan margin
    farther dist margin h = elim (Bool-cases (d.le dist dist)) [
      | inr e ↦ inr (inl e)
      | inl e ↦ elim (Bool-cases (d.le margin margin)) [
        | inr k ↦ inr (inr k)
        | inl k ↦ elim (o.lt_or_le margin dist k e) [ inl l ↦ inl l | inr l ↦ absurd (cc (l, h)) ]
      ]
    ]

    IsNotWithin-IsAway :
        (fence : Geofence D) (pos : Position3D D) (margin : D)
        → IsNotWithin fence pos margin
        → IsAway fence pos margin
    IsNotWithin-IsAway fence pos margin h =
        All-imp (edges fence.boundary) (λ (a, b) k. farther (edge_dist pos.x pos.y a b) margin k) h

    least_from-away :
        (x y margin : D) (previous : D × D) (least : D) (rest : List (D × D))
        → d.le least least ≡ true
        → d.le (least_from x y previous least rest) margin ≡ false
        → (d.le least margin ≡ false)
          × All (λ (a, b). d.le (edge_dist x y a b) margin ≡ false) (edges_from previous rest)
    least_from-away x y margin previous least [] s h = (h, tt)
    least_from-away x y margin previous least (vertex ∷ rest) s h =
        let dist = edge_dist x y previous vertex in
        elim (Bool-cases (d.lt dist least)) [
          | inl e ↦
              let (n, a) =
                least_from-away x y margin vertex dist rest
                  (o.refl_of_le dist least (o.le_of_lt dist least e)).0 (ground (arith, h, e)) in
              (le_nearer dist least margin e n, (n, a))
          | inr e ↦
              let (n, a) = least_from-away x y margin vertex least rest s (ground (arith, h, e)) in
              (n, (le_farther dist least margin s e n, a))
        ]

  least_from-attained :
      (x y m : D) (previous : D × D) (least : D) (rest : List (D × D))
      → least_from x y previous least rest ≡ m
      → (m ≡ least) ⊎ Any (λ (a, b). edge_dist x y a b ≡ m) (edges_from previous rest)
  least_from-attained x y m previous least [] h = inl (sym h)
  least_from-attained x y m previous least (vertex ∷ rest) h =
      let dist = edge_dist x y previous vertex in
      elim (Bool-cases (d.lt dist least)) [
        | inl e ↦ elim (least_from-attained x y m vertex dist rest (ground (arith, h, e))) [
          | inl k ↦ inr (inl (sym k))
          | inr k ↦ inr (inr k)
        ]
        | inr e ↦ elim (least_from-attained x y m vertex least rest (ground (arith, h, e))) [
          | inl k ↦ inl k
          | inr k ↦ inr (inr k)
        ]
      ]

  distance_to_boundary-attained :
      (fence : Geofence D) (pos : Position3D D)
      → let dist = distance_to_boundary fence pos.x pos.y in
        (dist ≡ g.infinity) ⊎ HasEdge fence pos (λ e. e ≡ dist)
  unfolding distance_to_boundary
  distance_to_boundary-attained fence pos = elim (Option-cases (last? fence.boundary)) [
    | inl e ↦ rw (e) (inl refl)
    | inr (last, e) ↦ rw (e) (least_from-attained pos.x pos.y _ last g.infinity fence.boundary refl)
  ]

  distance_to_boundary-IsNotWithin :
      (o : IsOrdered D) (fence : Geofence D) (pos : Position3D D) (margin : D)
      → d.le g.infinity g.infinity ≡ true
      → d.le (distance_to_boundary fence pos.x pos.y) margin ≡ false
      → IsNotWithin fence pos margin
  unfolding distance_to_boundary
  distance_to_boundary-IsNotWithin o fence pos margin s h =
      elim (Option-cases (last? fence.boundary)) [
        | inl e ↦ rw (e) tt
        | inr (last, e) ↦
            rw (e)
              (least_from-away o pos.x pos.y margin last g.infinity fence.boundary s
                (subst (λ z. d.le (least_of pos.x pos.y z fence.boundary) margin ≡ false) e h)).1
      ]

  distance_to_boundary-IsAway :
      (o : IsOrdered D) (fence : Geofence D) (pos : Position3D D) (margin : D)
      → d.le g.infinity g.infinity ≡ true
      → d.le (distance_to_boundary fence pos.x pos.y) margin ≡ false
      → IsAway fence pos margin
  distance_to_boundary-IsAway o fence pos margin s h =
      IsNotWithin-IsAway o fence pos margin
        (distance_to_boundary-IsNotWithin o fence pos margin s h)

  -- A finite position in the polygon and the band of altitudes, away from every edge by the hard
  -- margin.
  pub record IsClear (fence : Geofence D) (pos : Position3D D) : Type 0 where
    pub finite : is_not_finite pos ≡ false
    pub in_band : is_out_of_band fence (d.neg pos.z) ≡ false
    pub inside : point_in_polygon fence pos.x pos.y ≡ true
    pub away : IsAway fence pos fence.hard_margin_m

  -- What each result means.
  pub Means : Geofence D → Position3D D → GeofenceResult D → Type 0
  Means fence pos safe = IsClear fence pos × IsAway fence pos fence.soft_margin_m
  Means fence pos (soft_warning dist) =
      IsClear fence pos
      × (d.le dist fence.soft_margin_m ≡ true)
      × ((dist ≡ g.infinity) ⊎ HasEdge fence pos (λ e. e ≡ dist))
  Means fence pos hard_breach =
      (is_not_finite pos ≡ true)
      ⊎ (is_out_of_band fence (d.neg pos.z) ≡ true)
      ⊎ (point_in_polygon fence pos.x pos.y ≡ false)
      ⊎ (d.le g.infinity fence.hard_margin_m ≡ true)
      ⊎ HasEdge fence pos (λ e. d.le e fence.hard_margin_m ≡ true)

  near :
      (fence : Geofence D) (pos : Position3D D)
      → d.le (distance_to_boundary fence pos.x pos.y) fence.hard_margin_m ≡ true
      → (d.le g.infinity fence.hard_margin_m ≡ true)
        ⊎ HasEdge fence pos (λ e. d.le e fence.hard_margin_m ≡ true)
  near fence pos h = elim (distance_to_boundary-attained fence pos) [
    | inl e ↦ inl (subst (λ z. d.le z fence.hard_margin_m ≡ true) e h)
    | inr e ↦ inr (
        Any-imp (edges fence.boundary)
          (λ _ k. subst (λ z. d.le z fence.hard_margin_m ≡ true) (sym k) h) e)
  ]

  by_distance-Means :
      (o : IsOrdered D) (fence : Geofence D) (pos : Position3D D)
      → d.le g.infinity g.infinity ≡ true
      → is_not_finite pos ≡ false
      → is_out_of_band fence (d.neg pos.z) ≡ false
      → point_in_polygon fence pos.x pos.y ≡ true
      → Means fence pos (by_distance fence (distance_to_boundary fence pos.x pos.y))
  unfolding Means
  by_distance-Means o fence pos s f b i =
      let dist = distance_to_boundary fence pos.x pos.y in
      elim (Bool-cases (d.le dist fence.hard_margin_m)) [
        | inl h ↦ rw (h) (inr (inr (inr (near fence pos h))))
        | inr h ↦
            let away = distance_to_boundary-IsAway o fence pos in
            let clear : IsClear fence pos = record {
              finite = f;
              in_band = b;
              inside = i;
              away = away fence.hard_margin_m s h;
            } in
            elim (Bool-cases (d.le dist fence.soft_margin_m)) [
              | inl k ↦ rw (h, k) (clear, k, distance_to_boundary-attained fence pos)
              | inr k ↦ rw (h, k) (clear, away fence.soft_margin_m s k)
            ]
      ]

  -- A position that is not a hard breach is finite, in the band of altitudes and inside the polygon,
  -- and every edge is farther than the hard margin, or its distance or the margin is not a number;
  -- one that is safe has the same of the soft margin, and a warning names the distance to an edge,
  -- or infinity, within that margin. A hard breach has one of these causes: a coordinate that is
  -- not finite, the altitude, the polygon, an edge within the hard margin, or a hard margin of
  -- infinity.
  pub check-Means :
      (o : IsOrdered D) (fence : Geofence D) (pos : Position3D D)
      → d.le g.infinity g.infinity ≡ true
      → Means fence pos (check fence pos)
  unfolding check Means
  check-Means o fence pos s = elim (Bool-cases (is_not_finite pos)) [
    | inl f ↦ rw (f) (inl f)
    | inr f ↦ elim (Bool-cases (is_out_of_band fence (d.neg pos.z))) [
      | inl b ↦ rw (f, b) (inr (inl b))
      | inr b ↦ elim (Bool-cases (point_in_polygon fence pos.x pos.y)) [
        | inl i ↦ rw (f, b, i) (by_distance-Means o fence pos s f b i)
        | inr i ↦ rw (f, b, i) (inr (inr (inl i)))
      ]
    ]
  ]
