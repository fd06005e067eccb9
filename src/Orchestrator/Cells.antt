-- ===== src/Orchestrator/Cells.antt =====
-- Which cells the drone of src/orchestrator/mod.rs can scan.
use ruv_drone.Base.{
  ℕ, zero, suc, ◌≤◌, ◌<◌, ◌≡◌, ◌≢◌, ◌∙◌, refl, ap, Bool, true, List, [], ◌∷◌, Option, none, some,
  arith, get_elem?, modify, Bool-cases, Option-cases, inl, inr,
}
use ruv_drone.Base.Float.{Float, Geometry, Widening}
use ruv_drone.Types.{CsiDetection, GridCell, Position3D}
use ruv_drone.Failsafe.{tick}
use ruv_drone.Planning.Grid.{
  ProbabilityGrid, cell_at, is_fresh, is_outside, mark_scanned, next_systematic_cell, scan,
  with_cell,
}
use ruv_drone.Planning.Grid.Beliefs.{believe, update_bayesian}
use ruv_drone.Planning.Grid.Sweep.{next_systematic_cell-none_at}
use ruv_drone.Latentmesh.Air.{Air}
use ruv_drone.Orchestrator.Node.{Settings, SwarmOrchestrator}
use ruv_drone.Orchestrator.Step.{
  StepInputs, begin_step, fly_mission, pos_to_cell, safety_inputs, sight, step, takes_over,
}

get_elem?-modify_other {ℓ} :
    {A : Type ℓ} (f : A → A) (i j : ℕ) (xs : List A)
    → i < j
    → get_elem? (modify f i xs) j ≡ get_elem? xs j
get_elem?-modify_other f i j [] h = refl
get_elem?-modify_other f i zero (x ∷ xs) h = absurd (omega (arith, h))
get_elem?-modify_other f zero (suc j) (x ∷ xs) h = refl
get_elem?-modify_other f (suc i) (suc j) (x ∷ xs) h =
    get_elem?-modify_other f i j xs (omega (arith, h))

module _ {B : Type 0} where
  abbrev row_at : Option (List (GridCell B)) → ℕ → Option (GridCell B)
  row_at none x = none
  row_at (some row) x = get_elem? row x

  -- A change of a cell in an earlier column, or of none of the scans.
  cell_at-other :
      (f : GridCell B → GridCell B) (i j x y : ℕ) (rows : List (List (GridCell B)))
      → i < x
      → cell_at (with_cell f i j rows) x y ≡ cell_at rows x y
  cell_at-other f i j x y [] h = refl
  cell_at-other f i zero x zero (row ∷ rows) h = get_elem?-modify_other f i x row h
  cell_at-other f i zero x (suc y) (row ∷ rows) h = refl
  cell_at-other f i (suc j) x zero (row ∷ rows) h = refl
  cell_at-other f i (suc j) x (suc y) (row ∷ rows) h = cell_at-other f i j x y rows h

  row-keep :
      (f : GridCell B → GridCell B) (i x : ℕ) (row : List (GridCell B))
      → ((c : GridCell B) → (f c).last_scanned_ms ≡ c.last_scanned_ms)
      → is_fresh (get_elem? (modify f i row) x) ≡ is_fresh (get_elem? row x)
  row-keep f i x [] k = refl
  row-keep f zero zero (c ∷ row) k = ground (arith, k c)
  row-keep f zero (suc x) (c ∷ row) k = refl
  row-keep f (suc i) zero (c ∷ row) k = refl
  row-keep f (suc i) (suc x) (c ∷ row) k = row-keep f i x row k

  is_fresh-keep :
      (f : GridCell B → GridCell B) (i j x y : ℕ) (rows : List (List (GridCell B)))
      → ((c : GridCell B) → (f c).last_scanned_ms ≡ c.last_scanned_ms)
      → is_fresh (cell_at (with_cell f i j rows) x y) ≡ is_fresh (cell_at rows x y)
  is_fresh-keep f i j x y [] k = refl
  is_fresh-keep f i zero x zero (row ∷ rows) k = row-keep f i x row k
  is_fresh-keep f i zero x (suc y) (row ∷ rows) k = refl
  is_fresh-keep f i (suc j) x zero (row ∷ rows) k = refl
  is_fresh-keep f i (suc j) x (suc y) (row ∷ rows) k = is_fresh-keep f i j x y rows k

-- A cell in the grid that was never scanned, in a column that is neither the first nor one of the
-- columns that fit into the area whole.
pub record IsLeft {D B : Type 0} ⦃d : Float D⦄ ⦃g : Geometry D⦄ (c : Settings D B)
    (grid : ProbabilityGrid D B) (x y : ℕ) : Type 0 where
  pub fresh : is_fresh (cell_at grid.cells x y) ≡ true
  pub column : x < grid.width
  pub row : y < grid.height
  pub not_first : 0 < x
  pub beyond : g.to_u32 (d.div c.area_width_m c.grid_resolution_m) ≤ x

module _ {D B : Type 0} ⦃d : Float D⦄ ⦃g : Geometry D⦄ where
  pos_to_cell-before :
      (c : Settings D B) (grid : ProbabilityGrid D B) (x y : ℕ) (p : Position3D D)
      → IsLeft c grid x y
      → (pos_to_cell c p).0 < x
  unfolding pos_to_cell
  pos_to_cell-before c grid x y p h = omega (arith, h.not_first, h.beyond)

  mark_scanned-IsLeft :
      (c : Settings D B) (grid : ProbabilityGrid D B) (x y : ℕ) (p : Position3D D)
      → IsLeft c grid x y
      → IsLeft c (mark_scanned grid (pos_to_cell c p)).0 x y
  unfolding mark_scanned
  mark_scanned-IsLeft c grid x y p h =
      let (i, j) = pos_to_cell c p in
      elim (Bool-cases (is_outside grid i j)) [
        | inl e ↦ rw (e) h
        | inr e ↦ rw (e) (record {
          fresh =
              ap is_fresh
                (cell_at-other scan i j x y grid.cells (pos_to_cell-before c grid x y p h))
              ∙ h.fresh;
          column = h.column;
          row = h.row;
          not_first = h.not_first;
          beyond = h.beyond;
        })
      ]

  module _ ⦃b : Float B⦄ ⦃w : Widening B D⦄ where
    update_bayesian-IsLeft :
        (c : Settings D B) (grid : ProbabilityGrid D B) (x y i j : ℕ) (confidence : B)
        (detected : Bool)
        → IsLeft c grid x y
        → IsLeft c (update_bayesian grid (i, j) confidence detected) x y
    unfolding update_bayesian
    update_bayesian-IsLeft c grid x y i j confidence detected h =
        elim (Bool-cases (is_outside grid i j)) [
          | inl e ↦ rw (e) h
          | inr e ↦ rw (e) (record {
            fresh =
                is_fresh-keep (believe D confidence detected) i j x y grid.cells (λ _. refl)
                ∙ h.fresh;
            column = h.column;
            row = h.row;
            not_first = h.not_first;
            beyond = h.beyond;
          })
        ]

    sight-IsLeft :
        (c : Settings D B) (s : Option (CsiDetection D B)) (grid : ProbabilityGrid D B) (x y : ℕ)
        → IsLeft c grid x y
        → IsLeft c (sight c s grid) x y
    sight-IsLeft c none grid x y h = h
    sight-IsLeft c (some s) grid x y h =
        elim (Bool-cases (b.le c.confidence_threshold s.confidence)) [
          | inl e ↦ elim (Option-cases s.victim_position) [
            | inl n ↦ rw (e, n) h
            | inr (v, n) ↦
                rw (e, n)
                  (update_bayesian-IsLeft c grid x y (pos_to_cell c v).0 (pos_to_cell c v).1
                    s.confidence true h)
          ]
          | inr e ↦ rw (e) h
        ]

module _ {a : Air} {D B : Type 0} ⦃d : Float D⦄ ⦃b : Float B⦄ ⦃w : Widening B D⦄
    ⦃g : Geometry D⦄ where
  fly_mission-IsLeft :
      (o : SwarmOrchestrator a D B) (i : StepInputs D B) (x y : ℕ)
      → IsLeft o.config o.probability_grid x y
      → IsLeft o.config (fly_mission o i).probability_grid x y
  unfolding fly_mission
  fly_mission-IsLeft o i x y h =
      mark_scanned-IsLeft o.config (sight o.config i.scan_result o.probability_grid) x y
        o.state.position (sight-IsLeft o.config i.scan_result o.probability_grid x y h)

  unfoldable pub run : SwarmOrchestrator a D B → List (StepInputs D B) → SwarmOrchestrator a D B
  unfolding step
  run o [] = o
  run o (i ∷ is) = run (step o i).0 is

  step-IsLeft :
      (o : SwarmOrchestrator a D B) (i : StepInputs D B) (x y : ℕ)
      → IsLeft o.config o.probability_grid x y
      → IsLeft (step o i).0.config (step o i).0.probability_grid x y
  unfolding step
  step-IsLeft o i x y h =
      let machine = tick o.failsafe (safety_inputs (begin_step o i.dt_secs) i) in
      let guarded = record (begin_step o i.dt_secs) { failsafe = machine } in
      elim (Bool-cases (takes_over machine.state)) [
        | inl e ↦ rw (e) h
        | inr e ↦ rw (e) (fly_mission-IsLeft guarded i x y h)
      ]

  -- Where the area is not a whole number of cells wide, no number of steps scans a cell of the
  -- column that the last part of a cell takes, and so the systematic sweep never runs out of cells.
  pub run-IsLeft :
      (o : SwarmOrchestrator a D B) (is : List (StepInputs D B)) (x y : ℕ)
      → IsLeft o.config o.probability_grid x y
      → (is_fresh (cell_at (run o is).probability_grid.cells x y) ≡ true)
        × (next_systematic_cell (run o is).probability_grid ≢ none)
  unfolding run
  run-IsLeft o [] x y h = (
    h.fresh,
    λ e. cc (next_systematic_cell-none_at o.probability_grid x y h.column h.row e, h.fresh),
  )
  run-IsLeft o (i ∷ is) x y h = run-IsLeft (step o i).0 is x y (step-IsLeft o i x y h)
