-- ===== src/Planning/Grid.antt =====
-- src/planning/probability_grid.rs. `cells` is the vector of rows; `D` stands for `f64`, `B` for
-- `f32`. A cell is read and written only inside the grid.
pub mod Rows
pub mod Sweep
pub mod Beliefs
pub mod Coverage
mod Tests
use ruv_drone.Base.{
  ℕ, zero, suc, ◌+◌, ◌%◌, ◌||◌, ◌/◌, Bool, true, false, not, ltb, leb, ◌==◌, if◌then◌else◌, List,
  [], ◌∷◌, ◌++◌, Option, none, some, count, length, map, min, find, get_elem?, modify, range,
  range_rev,
}
use ruv_drone.Base.Float.{Float, Widening}
use ruv_drone.Types.{DroneState, GridCell}

pub record ProbabilityGrid (D B : Type 0) : Type 0 where
  pub cells : List (List (GridCell B))
  pub cell_size_m : D
  pub width : ℕ
  pub height : ℕ

-- The order in which the sweep looks at a row.
abbrev pub sweep_order : ℕ → ℕ → List ℕ
sweep_order width y = if y % 2 == 0 then range width else range_rev width

abbrev pub is_unscanned : {B : Type 0} → GridCell B → Bool
is_unscanned c = c.last_scanned_ms == 0

module _ {B : Type 0} where
  abbrev pub cell_at : List (List (GridCell B)) → ℕ → ℕ → Option (GridCell B)
  cell_at rows x y = elim (get_elem? rows y) [ none ↦ none | some row ↦ get_elem? row x ]

  abbrev pub with_cell :
      (GridCell B → GridCell B) → ℕ → ℕ → List (List (GridCell B)) → List (List (GridCell B))
  with_cell f x y rows = modify (modify f x) y rows

  abbrev pub scan : GridCell B → GridCell B
  scan c = record c { last_scanned_ms = if is_unscanned c then 1 else c.last_scanned_ms }

  abbrev pub is_fresh : Option (GridCell B) → Bool
  is_fresh none = false
  is_fresh (some c) = is_unscanned c

  abbrev pub find_in_rows : List (List (GridCell B)) → ℕ → List ℕ → Option (ℕ × ℕ)
  find_in_rows rows width [] = none
  find_in_rows rows width (y ∷ ys) =
      elim (find (λ x. is_fresh (cell_at rows x y)) (sweep_order width y)) [
        | some x ↦ some (x, y)
        | none ↦ find_in_rows rows width ys
      ]

  abbrev pub total_cells : List (List (GridCell B)) → ℕ
  total_cells [] = 0
  total_cells (row ∷ rows) = length row + total_cells rows

  abbrev pub count_cells : (GridCell B → Bool) → List (List (GridCell B)) → ℕ
  count_cells p [] = 0
  count_cells p (row ∷ rows) = count p row + count_cells p rows

module _ {D B : Type 0} where
  -- Whether the cell is inside the declared bounds.
  abbrev pub is_outside : ProbabilityGrid D B → ℕ → ℕ → Bool
  is_outside g x y = leb g.width x || leb g.height y

  unfoldable pub mark_scanned : ProbabilityGrid D B → ℕ × ℕ → ProbabilityGrid D B × Bool
  mark_scanned g (x, y) =
      if is_outside g x y
      then (g, false)
      else (record g { cells = with_cell scan x y g.cells }, is_fresh (cell_at g.cells x y))

  unfoldable pub next_systematic_cell : ProbabilityGrid D B → Option (ℕ × ℕ)
  next_systematic_cell g = find_in_rows g.cells g.width (range g.height)
