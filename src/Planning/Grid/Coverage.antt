-- ===== src/Planning/Grid/Coverage.antt =====
-- What changes the coverage of src/planning/probability_grid.rs, and what does not.
use ruv_drone.Base.{
  ℕ, zero, suc, ◌≡◌, refl, ap, Bool, ltb, List, [], ◌∷◌, arith, length, count, min, Bool-cases, inl,
  inr, modify, length-modify,
}
use ruv_drone.Base.Float.{Float, Widening}
use ruv_drone.Types.{GridCell}
use ruv_drone.Planning.Grid.{ProbabilityGrid, count_cells, is_outside, total_cells, with_cell}
use ruv_drone.Planning.Grid.Beliefs.{
  apply_gossip_update, believe, coverage_pct, merge_row, merge_rows, update_bayesian,
}

-- A change of cells that keeps when they were scanned.
abbrev KeepsScan : {B : Type 0} → (GridCell B → GridCell B) → Type 0
KeepsScan {B} f = (c : GridCell B) → (f c).last_scanned_ms ≡ c.last_scanned_ms

abbrev was_scanned : {B : Type 0} → GridCell B → Bool
was_scanned c = ltb 0 c.last_scanned_ms

module _ {B : Type 0} where
  count-keep :
      (f : GridCell B → GridCell B) (x : ℕ) (row : List (GridCell B))
      → KeepsScan f
      → count was_scanned (modify f x row) ≡ count was_scanned row
  count-keep f x [] k = refl
  count-keep f zero (c ∷ row) k = ground (arith, k c)
  count-keep f (suc x) (c ∷ row) k = ground (arith, count-keep f x row k)

  count_cells-keep :
      (f : GridCell B → GridCell B) (x y : ℕ) (rows : List (List (GridCell B)))
      → KeepsScan f
      → (count_cells was_scanned (with_cell f x y rows) ≡ count_cells was_scanned rows)
        × (total_cells (with_cell f x y rows) ≡ total_cells rows)
  count_cells-keep f x y [] k = (refl, refl)
  count_cells-keep f x zero (row ∷ rows) k =
      (rw (count-keep f x row k) refl, rw (length-modify f x row) refl)
  count_cells-keep f x (suc y) (row ∷ rows) k =
      let (p, q) = count_cells-keep f x y rows k in (rw (p) refl, rw (q) refl)

  module _ ⦃b : Float B⦄ where
    merge_row-keep :
        (n : ℕ) (local remote : List (GridCell B))
        → (count was_scanned (merge_row n local remote) ≡ count was_scanned local)
          × (length (merge_row n local remote) ≡ length local)
    merge_row-keep zero local remote = (refl, refl)
    merge_row-keep (suc n) [] remote = (refl, refl)
    merge_row-keep (suc n) (c ∷ local) [] = (refl, refl)
    merge_row-keep (suc n) (c ∷ local) (r ∷ remote) =
        let (p, q) = merge_row-keep n local remote in (ground (arith, p), ap suc q)

    merge_rows-keep :
        (n w : ℕ) (local remote : List (List (GridCell B)))
        → (count_cells was_scanned (merge_rows n w local remote) ≡ count_cells was_scanned local)
          × (total_cells (merge_rows n w local remote) ≡ total_cells local)
    merge_rows-keep zero w local remote = (refl, refl)
    merge_rows-keep (suc n) w [] remote = (refl, refl)
    merge_rows-keep (suc n) w (row ∷ local) [] = (refl, refl)
    merge_rows-keep (suc n) w (row ∷ local) (r ∷ remote) =
        let (p, q) = merge_row-keep w row r in
        let (u, v) = merge_rows-keep n w local remote in (rw (p, u) refl, rw (q, v) refl)

module _ {D B : Type 0} ⦃d : Float D⦄ where
  coverage_pct_eq :
      (g h : ProbabilityGrid D B)
      → (count_cells was_scanned h.cells ≡ count_cells was_scanned g.cells)
        × (total_cells h.cells ≡ total_cells g.cells)
      → coverage_pct h ≡ coverage_pct g
  unfolding coverage_pct
  coverage_pct_eq g h (p, q) = rw (p, q) refl

  -- Neither a detection nor a merge with another drone's grid changes the coverage.
  coverage_pct-beliefs :
      ⦃b : Float B⦄ ⦃w : Widening B D⦄ (g remote : ProbabilityGrid D B) (c : ℕ × ℕ) (confidence : B)
      (detected : Bool)
      → (coverage_pct (update_bayesian g c confidence detected) ≡ coverage_pct g)
        × (coverage_pct (apply_gossip_update g remote) ≡ coverage_pct g)
  unfolding update_bayesian apply_gossip_update
  coverage_pct-beliefs g remote (x, y) confidence detected = (
    elim (Bool-cases (is_outside g x y)) [
      | inl e ↦ rw (e) refl
      | inr e ↦ rw (e) (
          coverage_pct_eq g _
            (count_cells-keep (believe D confidence detected) x y g.cells (λ c. refl)))
    ],
    coverage_pct_eq g _ (
        merge_rows-keep (min g.height remote.height) (min g.width remote.width) g.cells
          remote.cells),
  )
