-- ===== src/Layout/Panes.antt =====
-- internal/vt/layout/layout.go: where the cells of a composed screen come from.
use gozellij.Prelude.{
  suc, zero, refl, [], ℕ, length, ◌<◌, ◌≤◌, ◌+◌, ◌≡◌, ◌⊎◌, ◌≢◌, if_elim, arith, ◌-◌, ◌&&◌,
  length-set, ◌==◌, get_or-set_ne, ℕ_discrete, ◌∙◌, inl, get_or-set_self, ap, All, All-set,
  All-get_or, List, get_or, set, ltb, leb,
}
use gozellij.Layout.{Frame, draw_cells, blank_edge, Pane, draw_rows, Cell, space}

length-draw_cells :
    (cols : ℕ) (src : List Cell) (col c k : ℕ) (line : List Cell)
    → length (draw_cells cols src col c k line) ≡ length line
unfolding draw_cells
length-draw_cells cols src col c zero line = refl
length-draw_cells cols src col c (suc k) line =
    length-draw_cells cols src col (c + 1) k _
    ∙ if_elim (λ l. length l ≡ length line) (ltb (col + c) cols && ltb c (length src)) _ line
        (λ _. length-set line (col + c) (get_or src c space)) (λ _. refl)

length-blank_edge :
    (cols edge : ℕ) (line : List Cell) → length (blank_edge cols edge line) ≡ length line
unfolding blank_edge
length-blank_edge cols edge line =
    if_elim (λ l. length l ≡ length line) _ (set line (edge - 1) space) line
      (λ _. length-set line (edge - 1) space) (λ _. refl)

-- A cell that no column of the pane reaches stays; one in reach is the pane's.
pub draw_cells_out :
    (cols : ℕ) (src : List Cell) (col c k : ℕ) (line : List Cell) (x : ℕ)
    → (x < col + c) ⊎ (col + c + k ≤ x)
    → get_or (draw_cells cols src col c k line) x space ≡ get_or line x space
unfolding draw_cells
draw_cells_out cols src col c zero line x h = refl
draw_cells_out cols src col c (suc k) line x h =
    draw_cells_out cols src col (c + 1) k _ x (omega (arith, h))
    ∙ if_elim (λ l. get_or l x space ≡ get_or line x space)
        (ltb (col + c) cols && ltb c (length src)) _ line
        (λ _. get_or-set_ne line (col + c) x (get_or src c space) space (omega (arith, h)))
        (λ _. refl)

pub draw_cells_in :
    (cols : ℕ) (src : List Cell) (col c k : ℕ) (line : List Cell) (i : ℕ)
    → c ≤ i
    → i < c + k
    → col + i < cols
    → i < length src
    → length line ≡ cols
    → get_or (draw_cells cols src col c k line) (col + i) space ≡ get_or src i space
unfolding draw_cells
draw_cells_in cols src col c zero line i lo hi x s len = ground arith
draw_cells_in cols src col c (suc k) line i lo hi x s len = elim (ℕ_discrete i c) [
  | yes here ↦
      draw_cells_out cols src col (c + 1) k _ (col + i) (inl (omega (arith, here)))
      ∙ if_elim (λ l. get_or l (col + i) space ≡ get_or src i space)
          (ltb (col + c) cols && ltb c (length src)) _ line
          (λ _. rw here (
            get_or-set_self line (col + c) (get_or src c space) space
              (omega (arith, x, len, here))))
          (λ f. ground arith)
  | no later ↦
      draw_cells_in cols src col (c + 1) k _ i (omega (arith, lo, later)) (omega (arith, hi)) x s (
        if_elim (λ l. length l ≡ cols) (ltb (col + c) cols && ltb c (length src)) _ line
          (λ _. length-set line (col + c) (get_or src c space) ∙ len) (λ _. len))
]

pub blank_edge_other :
    (cols edge : ℕ) (line : List Cell) (x : ℕ)
    → x + 1 ≢ edge
    → get_or (blank_edge cols edge line) x space ≡ get_or line x space
unfolding blank_edge
blank_edge_other cols edge line x h =
    if_elim (λ l. get_or l x space ≡ get_or line x space)
      (ltb 0 edge && leb edge cols && ((get_or line (edge - 1) space).width == 2))
      (set line (edge - 1) space) line
      (λ t. get_or-set_ne line (edge - 1) x space space (ground arith)) (λ _. refl)

-- A line of a pane as it is drawn over what stands there.
unfoldable pub drawn : Frame → Pane → ℕ → List Cell → List Cell
drawn f p r line =
    blank_edge f.cols (p.rect.col + p.rect.cols)
      (draw_cells f.cols (get_or p.grid r []) p.rect.col 0 p.rect.cols line)

pub draw_rows_out :
    (f : Frame) (p : Pane) (r k : ℕ) (cells : List (List Cell)) (y : ℕ)
    → (y < p.rect.row + r) ⊎ (p.rect.row + r + k ≤ y)
    → get_or (draw_rows f p r k cells) y [] ≡ get_or cells y []
unfolding draw_rows
draw_rows_out f p r zero cells y h = refl
draw_rows_out f p r (suc k) cells y h =
    draw_rows_out f p (r + 1) k _ y (omega (arith, h))
    ∙ if_elim (λ l. get_or l y [] ≡ get_or cells y [])
        (ltb (p.rect.row + r) f.rows && ltb r (length p.grid)) _ cells
        (λ _. get_or-set_ne cells (p.rect.row + r) y _ [] (omega (arith, h))) (λ _. refl)

pub draw_rows_in :
    (f : Frame) (p : Pane) (r k : ℕ) (cells : List (List Cell)) (j : ℕ)
    → r ≤ j
    → j < r + k
    → p.rect.row + j < f.rows
    → j < length p.grid
    → length cells ≡ f.rows
    → get_or (draw_rows f p r k cells) (p.rect.row + j) []
      ≡ drawn f p j (get_or cells (p.rect.row + j) [])
unfolding draw_rows drawn
draw_rows_in f p r zero cells j lo hi y g len = ground arith
draw_rows_in f p r (suc k) cells j lo hi y g len = elim (ℕ_discrete j r) [
  | yes here ↦
      draw_rows_out f p (r + 1) k _ (p.rect.row + j) (inl (omega (arith, here)))
      ∙ if_elim (λ l. get_or l (p.rect.row + j) [] ≡ drawn f p j (get_or cells (p.rect.row + j) []))
          (ltb (p.rect.row + r) f.rows && ltb r (length p.grid)) _ cells
          (λ _. rw here (get_or-set_self cells (p.rect.row + r) _ [] (omega (arith, y, len, here))))
          (λ no_room. ground arith)
  | no later ↦
      let rest = draw_rows_in f p (r + 1) k _ j (omega (arith, lo, later)) (omega (arith, hi)) y g (
        if_elim (λ l. length l ≡ f.rows) (ltb (p.rect.row + r) f.rows && ltb r (length p.grid)) _
          cells (λ _. length-set cells (p.rect.row + r) _ ∙ len) (λ _. len)) in
      rest
      ∙ if_elim
          (λ l.
            drawn f p j (get_or l (p.rect.row + j) [])
            ≡ drawn f p j (get_or cells (p.rect.row + j) []))
          (ltb (p.rect.row + r) f.rows && ltb r (length p.grid)) _ cells
          (λ _.
            ap (drawn f p j)
              (get_or-set_ne cells (p.rect.row + r) (p.rect.row + j) _ [] (omega (arith, later))))
          (λ _. refl)
]

-- The cells of a frame have its size.
abbrev pub IsFull : Frame → List (List Cell) → Type 0
IsFull f cells = (length cells ≡ f.rows) × All (λ l. length l ≡ f.cols) cells

length-drawn :
    (f : Frame) (p : Pane) (r : ℕ) (line : List Cell) → length (drawn f p r line) ≡ length line
unfolding drawn
length-drawn f p r line =
    length-blank_edge f.cols _ _ ∙ length-draw_cells f.cols _ p.rect.col 0 p.rect.cols line

pub draw_rows-IsFull :
    (f : Frame) (p : Pane) (r k : ℕ) (cells : List (List Cell))
    → IsFull f cells
    → IsFull f (draw_rows f p r k cells)
unfolding draw_rows drawn
draw_rows-IsFull f p r zero cells v = v
draw_rows-IsFull f p r (suc k) cells (len, all) = draw_rows-IsFull f p (r + 1) k _ (
    if_elim (IsFull f) (ltb (p.rect.row + r) f.rows && ltb r (length p.grid)) _ cells
      (λ room. (
        length-set cells (p.rect.row + r) _ ∙ len,
        All-set (λ l. length l ≡ f.cols) cells (p.rect.row + r) _ all
            (length-drawn f p r (get_or cells (p.rect.row + r) [])
              ∙ All-get_or (λ l. length l ≡ f.cols) cells (p.rect.row + r) [] all (ground arith)),
      ))
      (λ _. (len, all)))

-- The cell that a screen shows.
abbrev pub shown : Frame → ℕ → ℕ → Cell
shown f y x = get_or (get_or f.cells y []) x space

-- Whether a cell lies outside the rectangle of a pane.
abbrev pub Misses : ℕ → ℕ → Pane → Type 0
Misses y x p =
    ((y < p.rect.row) ⊎ (p.rect.row + p.rect.rows ≤ y))
    ⊎ ((x < p.rect.col) ⊎ (p.rect.col + p.rect.cols ≤ x))
