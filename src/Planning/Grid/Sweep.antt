-- ===== src/Planning/Grid/Sweep.antt =====
-- The systematic sweep of src/planning/probability_grid.rs: the next cell, until none is left.
use ruv_drone.Base.{
  ℕ, zero, suc, ◌+◌, ◌%◌, ◌<◌, ◌≤◌, ◌≡◌, ◌∙◌, refl, ap, sym, subst, true, false, ◌==◌,
  if◌then◌else◌, List, [], ◌∷◌, Option, none, some, arith, All, length, count, get_elem?, find,
  range, Bool-cases, Option-cases, inl, inr, find-some, find-none, find-All, All-range_from,
  All-range_rev, range_from-All, range_rev-All,
}
use ruv_drone.Types.{GridCell}
use ruv_drone.Planning.Grid.{
  ProbabilityGrid, cell_at, count_cells, find_in_rows, is_fresh, is_unscanned, mark_scanned,
  next_systematic_cell, sweep_order,
}
use ruv_drone.Planning.Grid.Rows.{IsGrid, mark_scanned-IsGrid, mark_scanned-unscanned, unscanned}

some-injective : {A : Type 0} {a b : A} → ◌≡◌ {A = Option A} (some a) (some b) → a ≡ b
some-injective h = ground arith

sweep_order-All {κ} : (P : ℕ → Type κ) (w y : ℕ) → ((x : ℕ) → x < w → P x) → All P (sweep_order w y)
sweep_order-All P w y h = elim (Bool-cases ((y % 2) == 0)) [
  | inl e ↦ rw (e) (All-range_from P 0 w (λ x _ l. h x (omega arith)))
  | inr e ↦ rw (e) (All-range_rev P w h)
]

All-sweep_order {κ} : (P : ℕ → Type κ) (w y x : ℕ) → All P (sweep_order w y) → x < w → P x
All-sweep_order P w y x a l = elim (Bool-cases ((y % 2) == 0)) [
  | inl e ↦ range_from-All P 0 w x (rw (e) at a) (omega arith) (omega arith)
  | inr e ↦ range_rev-All P w x (rw (e) at a) l
]

module _ {B : Type 0} (rows : List (List (GridCell B))) (w : ℕ) where
  IsFoundIn : ℕ → ℕ × ℕ → Type 0
  IsFoundIn h (x, y) = (is_fresh (cell_at rows x y) ≡ true) × (x < w) × (y < h)

  find_in_rows-IsFoundIn :
      (h : ℕ) (ys : List ℕ) {c : ℕ × ℕ}
      → All (λ y. y < h) ys
      → find_in_rows rows w ys ≡ some c
      → IsFoundIn h c
  unfolding IsFoundIn
  find_in_rows-IsFoundIn h [] a e = cc
  find_in_rows-IsFoundIn h (y ∷ ys) {c} a e =
      elim (Option-cases (find (λ x. is_fresh (cell_at rows x y)) (sweep_order w y))) [
        | inl n ↦ find_in_rows-IsFoundIn h ys a.1 (rw (find_in_rows, n) at e)
        | inr (x, n) ↦ subst (IsFoundIn h) (some-injective (rw (find_in_rows, n) at e)) (
          find-some (λ x. is_fresh (cell_at rows x y)) (sweep_order w y) n,
          find-All (λ x. x < w) (λ x. is_fresh (cell_at rows x y)) (sweep_order w y)
              (sweep_order-All (λ x. x < w) w y (λ x l. l)) n,
          a.0,
        )
      ]

  find_in_rows-none :
      (ys : List ℕ)
      → find_in_rows rows w ys ≡ none
      → All (λ y. (x : ℕ) → x < w → is_fresh (cell_at rows x y) ≡ false) ys
  find_in_rows-none [] e = tt
  find_in_rows-none (y ∷ ys) e =
      elim (Option-cases (find (λ x. is_fresh (cell_at rows x y)) (sweep_order w y))) [
        | inl n ↦ (
          λ x l.
              All-sweep_order (λ x. is_fresh (cell_at rows x y) ≡ false) w y x
                (find-none (λ x. is_fresh (cell_at rows x y)) (sweep_order w y) n) l,
          find_in_rows-none ys (rw (find_in_rows, n) at e),
        )
        | inr (x, n) ↦ absurd (cc (rw (find_in_rows, n) at e))
      ]

count-none :
    {B : Type 0} (row : List (GridCell B))
    → ((x : ℕ) → x < length row → is_fresh (get_elem? row x) ≡ false)
    → count is_unscanned row ≡ 0
count-none [] h = refl
count-none (c ∷ row) h =
    ground (arith, h 0 (omega arith), count-none row (λ x l. h (suc x) (omega (arith, l))))

count_cells-none :
    {B : Type 0} (w : ℕ) (rows : List (List (GridCell B)))
    → All (λ row. length row ≡ w) rows
    → ((y x : ℕ) → y < length rows → x < w → is_fresh (cell_at rows x y) ≡ false)
    → count_cells is_unscanned rows ≡ 0
count_cells-none w [] a h = refl
count_cells-none w (row ∷ rows) a h =
    rw (count-none row (λ x l. h 0 x (omega arith) (omega (arith, a.0))))
      (omega (arith, count_cells-none w rows a.1 (λ y x l m. h (suc y) x (omega (arith, l)) m)))

module _ {D B : Type 0} where
  -- The sweep stops only where nothing is left, and a cell that it names is inside the grid and was
  -- never scanned, so that marking it leaves one cell less.
  pub next_systematic_cell-none :
      (g : ProbabilityGrid D B) → IsGrid g → next_systematic_cell g ≡ none → unscanned g ≡ 0
  unfolding next_systematic_cell
  next_systematic_cell-none g h e =
      let a = find_in_rows-none g.cells g.width (range g.height) e in
      count_cells-none g.width g.cells h.columns (λ y x l m.
        range_from-All (λ y. (x : ℕ) → x < g.width → is_fresh (cell_at g.cells x y) ≡ false) 0
          g.height y a (omega arith) (omega (arith, h.rows)) x m)

  pub next_systematic_cell-some :
      (g : ProbabilityGrid D B) (x y : ℕ)
      → next_systematic_cell g ≡ some (x, y)
      → (x < g.width) × (y < g.height) × ((mark_scanned g (x, y)).1 ≡ true)
  unfolding next_systematic_cell mark_scanned IsFoundIn
  next_systematic_cell-some g x y e =
      let (fresh, l, m) =
        find_in_rows-IsFoundIn g.cells g.width g.height (range g.height)
          (All-range_from (λ y. y < g.height) 0 g.height (λ j _ k. omega (arith, k))) e in
      (l, m, ground arith)

  pub next_systematic_cell-none_at :
      (g : ProbabilityGrid D B) (x y : ℕ)
      → x < g.width
      → y < g.height
      → next_systematic_cell g ≡ none
      → is_fresh (cell_at g.cells x y) ≡ false
  unfolding next_systematic_cell
  next_systematic_cell-none_at g x y l m e =
      range_from-All (λ y. (x : ℕ) → x < g.width → is_fresh (cell_at g.cells x y) ≡ false) 0
        g.height y (find_in_rows-none g.cells g.width (range g.height) e) (omega arith)
        (omega arith) x l

  next_systematic_cell-unscanned :
      (g : ProbabilityGrid D B) (x y : ℕ)
      → next_systematic_cell g ≡ some (x, y)
      → unscanned g ≡ unscanned (mark_scanned g (x, y)).0 + 1
  next_systematic_cell-unscanned g x y e =
      let (_, _, first) = next_systematic_cell-some g x y e in
      mark_scanned-unscanned g x y
      ∙ ap (λ b. unscanned (mark_scanned g (x, y)).0 + (if b then 1 else 0)) first

  next_systematic_cell_end :
      (g : ProbabilityGrid D B) → unscanned g ≡ 0 → next_systematic_cell g ≡ none
  next_systematic_cell_end g h = elim (Option-cases (next_systematic_cell g)) [
    | inl e ↦ e
    | inr ((x, y), e) ↦ absurd (omega (arith, h, next_systematic_cell-unscanned g x y e))
  ]

  -- A drone that scans each cell that the sweep names, for a number of steps.
  unfoldable pub sweep : ℕ → ProbabilityGrid D B → List (ℕ × ℕ) × ProbabilityGrid D B
  sweep zero g = ([], g)
  sweep (suc n) g = elim (next_systematic_cell g) [
    | none ↦ ([], g)
    | some c ↦ let (cells, last) = sweep n (mark_scanned g c).0 in (c ∷ cells, last)
  ]

  -- As many steps as there are cells that were never scanned are enough: the sweep then names
  -- nothing more, nothing is left, and it named exactly that many cells.
  pub sweep-covers :
      (n : ℕ) (g : ProbabilityGrid D B)
      → IsGrid g
      → unscanned g ≤ n
      → let (cells, last) = sweep n g in
        (unscanned last ≡ 0) × (length cells ≡ unscanned g) × (next_systematic_cell last ≡ none)
  unfolding sweep
  sweep-covers zero g h l =
      let u : unscanned g ≡ 0 = omega (arith, l) in (u, sym u, next_systematic_cell_end g u)
  sweep-covers (suc n) g h l = elim (Option-cases (next_systematic_cell g)) [
    | inl e ↦ let u = next_systematic_cell-none g h e in rw (sweep, e) (u, sym u, e)
    | inr ((x, y), e) ↦
        let m = (mark_scanned g (x, y)).0 in
        let one = next_systematic_cell-unscanned g x y e in
        let (p, q, r) = sweep-covers n m (mark_scanned-IsGrid g x y h) (omega (arith, one)) in
        rw (sweep, e) (p, ap suc q ∙ omega (arith, one), r)
  ]
