-- ===== src/Planning/Grid/Rows.antt =====
-- Scanning cells of src/planning/probability_grid.rs, and the cells that are left.
use ruv_drone.Base.{
  ℕ, zero, suc, ◌∙◌, ◌+◌, ◌≡◌, refl, Bool, if◌then◌else◌, List, [], ◌∷◌, Option, arith, All, length,
  modify, option_map, weight, count-modify, length-modify, All-modify, Bool-cases, inl, inr,
}
use ruv_drone.Types.{GridCell}
use ruv_drone.Planning.Grid.{
  ProbabilityGrid, cell_at, count_cells, is_fresh, is_outside, is_unscanned, mark_scanned, scan,
  with_cell,
}

-- As many rows as the height, each of the width.
pub record IsGrid {D B : Type 0} (g : ProbabilityGrid D B) : Type 0 where
  pub rows : length g.cells ≡ g.height
  pub columns : All (λ row. length row ≡ g.width) g.cells

-- The cells that were never scanned.
abbrev pub unscanned : {D B : Type 0} → ProbabilityGrid D B → ℕ
unscanned g = count_cells is_unscanned g.cells

module _ {B : Type 0} where
  pub count_cells-with_cell :
      (p : GridCell B → Bool) (f : GridCell B → GridCell B) (x y : ℕ)
      (rows : List (List (GridCell B)))
      → count_cells p (with_cell f x y rows) + weight p (cell_at rows x y)
        ≡ count_cells p rows + weight p (option_map f (cell_at rows x y))
  count_cells-with_cell p f x y [] = refl
  count_cells-with_cell p f x zero (row ∷ rows) = omega (arith, count-modify p f x row)
  count_cells-with_cell p f x (suc y) (row ∷ rows) =
      omega (arith, count_cells-with_cell p f x y rows)

  weight-scan :
      (o : Option (GridCell B))
      → (weight is_unscanned o ≡ (if is_fresh o then 1 else 0))
        × (weight is_unscanned (option_map scan o) ≡ 0)
  weight-scan o = ground arith

module _ {D B : Type 0} where
  -- Marking a cell, inside the grid or not, answers true exactly if there is now one cell less that
  -- was never scanned; otherwise there are as many as before.
  pub mark_scanned-unscanned :
      (g : ProbabilityGrid D B) (x y : ℕ)
      → let (h, first) = mark_scanned g (x, y) in
        unscanned g ≡ unscanned h + (if first then 1 else 0)
  unfolding mark_scanned
  mark_scanned-unscanned g x y = elim (Bool-cases (is_outside g x y)) [
    | inl e ↦ rw (e) (omega arith)
    | inr e ↦
        let (u, v) = weight-scan (cell_at g.cells x y) in
        rw (e) (omega (arith, count_cells-with_cell is_unscanned scan x y g.cells, u, v))
  ]

  pub mark_scanned-IsGrid :
      (g : ProbabilityGrid D B) (x y : ℕ) → IsGrid g → IsGrid (mark_scanned g (x, y)).0
  unfolding mark_scanned
  mark_scanned-IsGrid g x y h = elim (Bool-cases (is_outside g x y)) [
    | inl e ↦ rw (e) h
    | inr e ↦ rw (e) (record {
      rows = length-modify (modify scan x) y g.cells ∙ h.rows;
      columns =
          All-modify (λ row. length row ≡ g.width) (modify scan x) y g.cells
            (λ row k. length-modify scan x row ∙ k) h.columns;
    })
  ]
