-- ===== src/Planning/Grid/Beliefs.antt =====
-- The probabilities of src/planning/probability_grid.rs: a new grid, updates, merging, coverage and
-- the most promising cell.
use ruv_drone.Base.{
  ℕ, zero, suc, Bool, true, ltb, if◌then◌else◌, List, [], ◌∷◌, Option, none, some, min, range,
  option_map,
}
use ruv_drone.Base.Float.{Float, Widening}
use ruv_drone.Types.{GridCell}
use ruv_drone.Planning.Grid.{ProbabilityGrid, count_cells, is_outside, total_cells, with_cell}

module _ {B : Type 0} ⦃b : Float B⦄ where
  abbrev pub new_row : ℕ → List ℕ → List (GridCell B)
  new_row y [] = []
  new_row y (x ∷ xs) =
      record {
        x_idx = x;
        y_idx = y;
        victim_probability = b.decimal 5 1;
        pheromone = b.decimal 0 1;
        last_scanned_ms = 0;
      }
      ∷ new_row y xs

  abbrev pub new_rows : ℕ → List ℕ → List (List (GridCell B))
  new_rows width [] = []
  new_rows width (y ∷ ys) = new_row y (range width) ∷ new_rows width ys

module _ {D B : Type 0} ⦃b : Float B⦄ where
  unfoldable pub new : (width height : ℕ) → D → ProbabilityGrid D B
  new width height cell_size_m = record {
    cells = new_rows width (range height);
    cell_size_m = cell_size_m;
    width = width;
    height = height;
  }

module _ (D : Type 0) {B : Type 0} ⦃d : Float D⦄ ⦃b : Float B⦄ ⦃w : Widening B D⦄ where
  -- The posterior of a cell.
  abbrev pub posterior : B → B → Bool → B
  posterior prior_b confidence detected =
      let prior = w.widen prior_b in
      let likelihood =
        if detected then w.widen confidence else d.sub (d.decimal 1 0) (w.widen confidence) in
      let denom =
        d.add (d.mul likelihood prior)
          (d.mul (d.sub (d.decimal 1 0) likelihood) (d.sub (d.decimal 1 0) prior)) in
      if d.lt (d.decimal 1 9) denom
      then w.narrow (d.div (d.mul likelihood prior) denom)
      else w.narrow prior

  abbrev pub believe : B → Bool → GridCell B → GridCell B
  believe confidence detected c = record c {
    victim_probability = posterior c.victim_probability confidence detected;
    pheromone = b.min (b.add c.pheromone (b.decimal 1 1)) (b.decimal 1 0);
  }

module _ {D B : Type 0} ⦃d : Float D⦄ ⦃b : Float B⦄ ⦃w : Widening B D⦄ where
  unfoldable pub update_bayesian : ProbabilityGrid D B → ℕ × ℕ → B → Bool → ProbabilityGrid D B
  update_bayesian g (x, y) confidence detected =
      if is_outside g x y
      then g
      else record g { cells = with_cell (believe D confidence detected) x y g.cells }

module _ {D : Type 0} ⦃d : Float D⦄ where
  -- `if total == 0 { 1.0 } else { scanned as f64 / total as f64 }`.
  abbrev pub fraction : ℕ → ℕ → D
  fraction scanned zero = d.decimal 1 0
  fraction scanned (suc total) = d.div (d.of_nat scanned) (d.of_nat (suc total))

module _ {D B : Type 0} ⦃d : Float D⦄ where
  unfoldable pub coverage_pct : ProbabilityGrid D B → D
  coverage_pct g =
      fraction (count_cells (λ c. ltb 0 c.last_scanned_ms) g.cells) (total_cells g.cells)

module _ {B : Type 0} ⦃b : Float B⦄ where
  abbrev pub score : GridCell B → B
  score c =
      b.mul c.victim_probability
        (b.sub (b.decimal 1 0) (if ltb 0 c.last_scanned_ms then c.pheromone else b.decimal 0 1))

  abbrev pub beats : B → Option ((ℕ × ℕ) × B) → Bool
  beats s none = true
  beats s (some (c, best)) = b.lt best s

  abbrev pub best_in_row : Option ((ℕ × ℕ) × B) → List (GridCell B) → Option ((ℕ × ℕ) × B)
  best_in_row best [] = best
  best_in_row best (c ∷ row) =
      best_in_row (if beats (score c) best then some ((c.x_idx, c.y_idx), score c) else best) row

  abbrev pub best_in_rows : Option ((ℕ × ℕ) × B) → List (List (GridCell B)) → Option ((ℕ × ℕ) × B)
  best_in_rows best [] = best
  best_in_rows best (row ∷ rows) = best_in_rows (best_in_row best row) rows

  -- The mean of the two beliefs, over the cells that both rows and both grids have.
  abbrev pub merge_row : ℕ → List (GridCell B) → List (GridCell B) → List (GridCell B)
  merge_row zero local remote = local
  merge_row (suc n) (c ∷ local) (r ∷ remote) =
      record c {
        victim_probability =
            b.div (b.add c.victim_probability r.victim_probability) (b.decimal 2 0);
      }
      ∷ merge_row n local remote
  merge_row (suc n) local _ = local

  abbrev pub merge_rows :
      ℕ → ℕ → List (List (GridCell B)) → List (List (GridCell B)) → List (List (GridCell B))
  merge_rows zero w local remote = local
  merge_rows (suc n) w (row ∷ local) (r ∷ remote) = merge_row w row r ∷ merge_rows n w local remote
  merge_rows (suc n) w local _ = local

module _ {D B : Type 0} ⦃b : Float B⦄ where
  unfoldable pub highest_priority_unscanned : ProbabilityGrid D B → Option (ℕ × ℕ)
  highest_priority_unscanned g = option_map (λ p. p.0) (best_in_rows none g.cells)

  unfoldable pub apply_gossip_update :
      ProbabilityGrid D B → ProbabilityGrid D B → ProbabilityGrid D B
  apply_gossip_update g remote = record g {
    cells = merge_rows (min g.height remote.height) (min g.width remote.width) g.cells remote.cells;
  }
