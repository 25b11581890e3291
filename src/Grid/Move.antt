-- ===== src/Grid/Move.antt =====
-- internal/vt/grid/grid.go: moving, saving and restoring the cursor.
use gozellij.Prelude.{◌^◌, ℕ, ◌+◌, ◌-◌, min, max, false, ◌&&◌, ltb, leb, if◌then◌else◌}
use gozellij.Grid.Term.{Term}
use gozellij.Grid.Scroll.{at_row}

-- `clamp`, of a number that is not negative.
unfoldable pub clamp : ℕ → ℕ → ℕ → ℕ
clamp v lo hi = max lo (min v hi)

unfoldable pub save_cursor : Term → Term
save_cursor t = record t { saved = t.cur; saved_style = t.style }

-- What was saved comes back, except that visibility stays, within the screen.
unfoldable pub restore_cursor : Term → Term
restore_cursor t = record t {
  cur = record (t.saved) {
    visible = t.cur.visible;
    row = clamp t.saved.row 0 (t.rows - 1);
    col = clamp t.saved.col 0 (t.cols - 1);
  };
  style = t.saved_style;
  pend = false;
}

-- A sum of two `int`s, of which a caller only compares. Past the largest it is negative, and `clamp`
-- makes 0 of it.
abbrev pub int_sum : ℕ → ℕ → ℕ
int_sum a b = if ltb (a + b) (2 ^ 63) then a + b else 0

-- `moveVertically` by a number of rows down, and by a number of rows up.
unfoldable pub move_down : Term → ℕ → Term
move_down t n =
    let hi = if ltb 0 n && leb t.cur.row t.bottom then t.bottom else t.rows - 1 in
    record (at_row t (clamp (int_sum t.cur.row n) 0 hi)) { pend = false }

-- A row above the screen is clamped like row 0.
unfoldable pub move_up : Term → ℕ → Term
move_up t n =
    let lo = if ltb 0 n && leb t.top t.cur.row then t.top else 0 in
    record (at_row t (clamp (t.cur.row - n) lo (t.rows - 1))) { pend = false }

unfoldable pub eff_col : Term → ℕ
eff_col t = if t.pend then t.cols else t.cur.col

unfoldable pub move_to : Term → ℕ → ℕ → Term
move_to t row col = record t {
  cur = record (t.cur) { row = clamp row 0 (t.rows - 1); col = clamp col 0 (t.cols - 1) };
  pend = false;
}

-- Mode 1048 of parser.go: the cursor is saved to and restored from the slot of the alternate
-- screen.
unfoldable pub save_1048 : Term → Term
save_1048 t = record t { alt_saved = t.cur }

unfoldable pub restore_1048 : Term → Term
restore_1048 t = record t { cur = t.alt_saved; pend = false }
