-- ===== src/Grid/Resize.antt =====
-- internal/vt/grid/grid.go: changing the size, and the alternate screen.
use gozellij.Prelude.{
  ℕ, zero, suc, ◌+◌, ◌-◌, min, Bool, true, false, ◌||◌, Option, none, some, List, [], ◌∷◌, ltb,
  if◌then◌else◌, get_or, take, replicate, copy,
}
use gozellij.Grid.Cell.{Cell, blank_row}
use gozellij.Grid.Term.{Term, default_tabs}
use gozellij.Grid.Reflow.{reflow_to}

-- `enterAlt`: the live grid is put away and a fresh one takes its place.
unfoldable pub enter_alt : Term → Bool → Term
enter_alt t save = if t.on_alt then t else record t {
  alt_saved = if save then t.cur else t.alt_saved;
  alt = t.cells;
  alt_wrapped = t.wrapped;
  alt_used = t.used;
  wrapped = replicate t.rows false;
  used = replicate t.rows 0;
  cells = replicate t.rows (blank_row t.cols);
  on_alt = true;
}

-- The grid that was put away, live again.
unfoldable pub swap_back : Term → Term
swap_back t = record t {
  cells = t.alt;
  wrapped = t.alt_wrapped;
  used = t.alt_used;
  alt = [];
  alt_wrapped = [];
  alt_used = [];
  on_alt = false;
}

-- The cursor that entering saved, brought onto the screen.
unfoldable pub restore_alt_cursor : Term → Term
restore_alt_cursor t = record t {
  cur = record (t.alt_saved) {
    row = min t.alt_saved.row (t.rows - 1);
    col = min t.alt_saved.col (t.cols - 1);
  };
}

-- A resize while a program owned the screen is made up for.
unfoldable pub settle : Term → Option Term
settle t =
    if t.alt_pending then reflow_to (record t { alt_pending = false }) t.cols t.rows else some t

abbrev pub come_back : Bool → Term → Term
come_back restore t = record (if restore then restore_alt_cursor t else t) { pend = false }

abbrev pub left : Bool → Option Term → Option Term
left restore none = none
left restore (some t) = some (come_back restore t)

unfoldable pub leave_alt : Term → Bool → Option Term
leave_alt t restore = if t.on_alt then left restore (settle (swap_back t)) else some t

-- `resizeCells` and `resizeFlags`: what still fits, the rest blank.
unfoldable pub resize_rows : List (List Cell) → ℕ → ℕ → ℕ → List (List Cell)
resize_rows cells cols r zero = []
resize_rows cells cols r (suc k) =
    copy (blank_row cols) (take cols (get_or cells r [])) ∷ resize_rows cells cols (r + 1) k

unfoldable pub resize_cells : List (List Cell) → ℕ → ℕ → List (List Cell)
resize_cells cells cols rows = resize_rows cells cols 0 rows

unfoldable pub resize_on_alt : Term → ℕ → ℕ → Term
resize_on_alt t cols rows = record t {
  cells = resize_cells t.cells cols rows;
  wrapped = copy (replicate rows false) (take rows t.wrapped);
  used = copy (replicate rows 0) (take rows t.used);
  tabs = default_tabs cols;
  cols = cols;
  rows = rows;
  top = 0;
  bottom = rows - 1;
  cur = record (t.cur) { row = min t.cur.row (rows - 1); col = min t.cur.col (cols - 1) };
  pend = false;
  alt_pending = true;
}

unfoldable pub resize : Term → ℕ → ℕ → Option Term
resize t cols rows =
    if (ltb cols 1) || (ltb rows 1)
    then some t
    else if t.on_alt
    then some (resize_on_alt t cols rows)
    else reflow_to t cols rows
