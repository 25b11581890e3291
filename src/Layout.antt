-- ===== src/Layout.antt =====
-- internal/vt/layout/layout.go: several terminals on one screen.
--
-- The corner of a rectangle is on or right of and below the screen's, so it is a pair of natural
-- numbers. A pane's terminal is what the composition reads of it: its cells and its cursor.
pub mod Panes
pub mod Composed
pub mod Cursors
use gozellij.Prelude.{
  suc, zero, refl, [], ◌∷◌, ℕ, List, if◌then◌else◌, replicate, Bool, ltb, ◌+◌, min, ◌&&◌, leb, ◌-◌,
  get_or, ◌==◌, set, length,
}
use gozellij.Grid.Cell.{Cursor, Cell, blank_row, hidden_cursor, space}
use gozellij.Grid.Move.{clamp}

pub record Rect : Type 0 where
  pub col : ℕ
  pub row : ℕ
  pub cols : ℕ
  pub rows : ℕ

pub record Pane : Type 0 where
  pub rect : Rect
  pub grid : List (List Cell)
  pub cursor : Cursor
  pub focused : Bool

pub record Frame : Type 0 where
  pub cols : ℕ
  pub rows : ℕ
  pub cells : List (List Cell)
  pub cur : Cursor

-- The inner loop of `Compose`: `k` cells of a pane's row, from its column `c` on.
unfoldable pub draw_cells : ℕ → List Cell → ℕ → ℕ → ℕ → List Cell → List Cell
draw_cells cols src col c zero line = line
draw_cells cols src col c (suc k) line =
    let line' =
      if ltb (col + c) cols && ltb c (length src)
      then set line (col + c) (get_or src c space)
      else line in
    draw_cells cols src col (c + 1) k line'

-- A wide character in the last column of a pane is blanked.
unfoldable pub blank_edge : ℕ → ℕ → List Cell → List Cell
blank_edge cols edge line =
    if ltb 0 edge && leb edge cols && ((get_or line (edge - 1) space).width == 2)
    then set line (edge - 1) space
    else line

-- The rows of a pane, `k` of them, from its row `r` on.
unfoldable pub draw_rows : Frame → Pane → ℕ → ℕ → List (List Cell) → List (List Cell)
draw_rows f p r zero cells = cells
draw_rows f p r (suc k) cells =
    let y = p.rect.row + r in
    let line =
      blank_edge f.cols (p.rect.col + p.rect.cols)
        (draw_cells f.cols (get_or p.grid r []) p.rect.col 0 p.rect.cols (get_or cells y [])) in
    let cells' = if ltb y f.rows && ltb r (length p.grid) then set cells y line else cells in
    draw_rows f p (r + 1) k cells'

-- The cursor of a pane, clipped into the pane.
unfoldable pub pane_cursor : Frame → Pane → Cursor
pane_cursor f p = record (p.cursor) {
  row =
      clamp (p.cursor.row + p.rect.row) p.rect.row
        (min (p.rect.row + p.rect.rows - 1) (f.rows - 1));
  col =
      clamp (p.cursor.col + p.rect.col) p.rect.col
        (min (p.rect.col + p.rect.cols - 1) (f.cols - 1));
}

unfoldable pub draw_pane : Frame → Pane → Frame
draw_pane f p = record f {
  cells = draw_rows f p 0 p.rect.rows f.cells;
  cur = if p.focused then pane_cursor f p else f.cur;
}

unfoldable pub draw_panes : Frame → List Pane → Frame
draw_panes f [] = f
draw_panes f (p ∷ ps) = draw_panes (draw_pane f p) ps

unfoldable pub compose : ℕ → ℕ → List Pane → Frame
compose cols rows panes =
    draw_panes
      (record {
        cols = cols;
        rows = rows;
        cells = replicate rows (blank_row cols);
        cur = hidden_cursor;
      })
      panes
