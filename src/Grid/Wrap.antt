-- ===== src/Grid/Wrap.antt =====
-- internal/vt/grid/reflow.go: a paragraph broken into rows.
--
-- Go panics at a write past the end of a row: here a paragraph with such a write is `faulted`.
use gozellij.Prelude.{
  ℕ, ◌+◌, ◌-◌, Bool, false, ◌||◌, Option, none, some, List, [], ◌∷◌, ◌++◌, ltb, leb, ◌==◌,
  if◌then◌else◌, length, set,
}
use gozellij.Grid.Cell.{Cell, blank_row, continuation}
use gozellij.Grid.Draw.{fill_cells}

-- The variables of `wrapCells`.
pub record Wrapping : Type 0 where
  pub rows : List (List Cell)
  pub used : List ℕ
  pub row : List Cell
  pub col : ℕ
  pub cursor_at : Option (ℕ × ℕ)
  pub faulted : Bool

unfoldable pub start_wrapping : ℕ → Wrapping
start_wrapping cols = record {
  rows = [];
  used = [];
  row = blank_row cols;
  col = 0;
  cursor_at = none;
  faulted = false;
}

unfoldable pub flush : ℕ → Wrapping → Wrapping
flush cols w = record w {
  rows = w.rows ++ w.row ∷ [];
  used = w.used ++ w.col ∷ [];
  row = blank_row cols;
  col = 0;
}

-- A cell of the given width is placed, with its continuation behind it.
unfoldable pub place : ℕ → Cell → ℕ → Wrapping → Wrapping
place cols c width w = record w {
  row = fill_cells (set w.row w.col c) (w.col + 1) (width - 1) (continuation c.style);
  col = w.col + width;
  faulted = w.faulted || ltb cols (w.col + width);
}

abbrev pub is_continuation : Cell → Bool
is_continuation c = elim c.content [ [] ↦ c.width == 0 | x ∷ xs ↦ false ]

abbrev pub cell_width : Cell → ℕ
cell_width c = if c.width == 0 then 1 else c.width

abbrev pub is_at : Option ℕ → ℕ → Bool
is_at none i = false
is_at (some k) i = k == i

unfoldable pub wrap_cell : ℕ → Option ℕ → ℕ → Cell → Wrapping → Wrapping
wrap_cell cols cursor i c w =
    let width = cell_width c in
    let w' = if ltb cols (w.col + width) then flush cols w else w in
    let w'' =
      if is_at cursor i then record w' { cursor_at = some (length w'.rows, w'.col) } else w' in
    if is_continuation c then w else place cols c width w''

unfoldable pub wrap_from : ℕ → Option ℕ → ℕ → List Cell → Wrapping → Wrapping
wrap_from cols cursor i [] w = w
wrap_from cols cursor i (c ∷ cs) w = wrap_from cols cursor (i + 1) cs (wrap_cell cols cursor i c w)

-- A cursor just past the last character.
unfoldable pub wrap_cursor : ℕ → Option ℕ → ℕ → Wrapping → Wrapping
wrap_cursor cols none n w = w
wrap_cursor cols (some k) n w =
    let w' = if leb cols w.col then flush cols w else w in
    if leb n k then record w' { cursor_at = some (length w'.rows, w'.col) } else w

unfoldable pub wrap_cells : List Cell → ℕ → Option ℕ → Wrapping
wrap_cells cells cols cursor =
    flush cols
      (wrap_cursor cols cursor (length cells) (wrap_from cols cursor 0 cells (start_wrapping cols)))
