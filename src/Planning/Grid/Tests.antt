-- ===== src/Planning/Grid/Tests.antt =====
-- A small grid of src/planning/probability_grid.rs, swept.
use ruv_drone.Base.{◌≡◌, ◌≤◌, refl, arith, none, some, length}
use ruv_drone.Base.Fixed.{Fixed, fixed_float, fixed_widening}
use ruv_drone.Planning.Grid.{ProbabilityGrid, next_systematic_cell}
use ruv_drone.Planning.Grid.Rows.{IsGrid, unscanned}
use ruv_drone.Planning.Grid.Sweep.{sweep, sweep-covers}
use ruv_drone.Planning.Grid.Beliefs.{new}

abbrev grid : ProbabilityGrid Fixed Fixed
grid = new 3 2 (some 2_000_000)

grid-IsGrid : IsGrid grid
unfolding new
grid-IsGrid = record { rows = refl; columns = (refl, (refl, tt)) }

six : unscanned grid ≤ 6
unfolding new
six = omega arith

sweep-covers_example :
    let (cells, last) = sweep 6 grid in
    (unscanned last ≡ 0) × (length cells ≡ unscanned grid) × (next_systematic_cell last ≡ none)
sweep-covers_example = sweep-covers 6 grid grid-IsGrid six
