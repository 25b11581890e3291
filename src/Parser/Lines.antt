-- ===== src/Parser/Lines.antt =====
-- internal/vt/grid/parser.go: inserting and deleting lines and characters, and erasing.
--
-- A sum past the largest `int` is negative. A slice that begins there is a panic, `none` here; an
-- erasure that ends there erases nothing.
use gozellij.Prelude.{
  ℕ, zero, suc, ◌+◌, ◌-◌, min, max, false, ◌&&◌, Option, none, some, ltb, leb, ◌==◌, if◌then◌else◌,
  drop, copy_at,
}
use gozellij.Parser.Numbers.{max_int}
use gozellij.Grid.Cell.{blank_row}
use gozellij.Grid.Term.{Term}
use gozellij.Grid.Draw.{erase_in_row, row_of, with_row}
use gozellij.Grid.Move.{eff_col}
use gozellij.Grid.Scroll.{shift_up, shift_down}

unfoldable pub shift_bottom : Term → ℕ
shift_bottom t = if leb t.top t.cur.row && leb t.cur.row t.bottom then t.bottom else t.rows - 1

-- One round of `insertLines` and of `deleteLines`.
unfoldable pub insert_line : ℕ → Term → Term
insert_line bottom t = record t {
  cells = shift_down t.cells t.cur.row bottom (blank_row t.cols);
  wrapped = shift_down t.wrapped t.cur.row bottom false;
  used = shift_down t.used t.cur.row bottom 0;
}

unfoldable pub delete_line : ℕ → Term → Term
delete_line bottom t = record t {
  cells = shift_up t.cells t.cur.row bottom (blank_row t.cols);
  wrapped = shift_up t.wrapped t.cur.row bottom false;
  used = shift_up t.used t.cur.row bottom 0;
}

unfoldable pub times : ℕ → (Term → Term) → Term → Term
times zero f t = t
times (suc n) f t = times n f (f t)

unfoldable pub insert_lines : Term → ℕ → Term
insert_lines t n =
    let bottom = shift_bottom t in
    if ltb bottom t.cur.row then t else times n (insert_line bottom) t

unfoldable pub delete_lines : Term → ℕ → Term
delete_lines t n =
    let bottom = shift_bottom t in
    if ltb bottom t.cur.row then t else times n (delete_line bottom) t

unfoldable pub delete_chars : Term → ℕ → Option Term
delete_chars t n =
    let col = eff_col t in
    let row = row_of t t.cur.row in
    let moved = with_row t t.cur.row (copy_at row col (drop (min (col + n) t.cols) row)) in
    if leb t.cols col
    then some t
    else if ltb max_int (col + n)
    then none
    else some (erase_in_row moved t.cur.row (max (t.cols - n) col) (t.cols - 1))

unfoldable pub insert_chars : Term → ℕ → Option Term
insert_chars t n =
    let col = eff_col t in
    let row = row_of t t.cur.row in
    let moved = with_row t t.cur.row (copy_at row (min (col + n) t.cols) (drop col row)) in
    if leb t.cols col
    then some t
    else if ltb max_int (col + n)
    then none
    else some (erase_in_row moved t.cur.row col (col + n - 1))

unfoldable pub erase_chars : Term → ℕ → Term
erase_chars t n =
    let col = eff_col t in
    if ltb max_int (col + n - 1) then t else erase_in_row t t.cur.row col (col + n - 1)

-- Whole rows from `r` on, `k` of them.
unfoldable pub erase_rows : ℕ → ℕ → Term → Term
erase_rows r zero t = t
erase_rows r (suc k) t = erase_rows (r + 1) k (erase_in_row t r 0 (t.cols - 1))

unfoldable pub erase_in_display : Term → ℕ → Term
erase_in_display t n =
    if ltb 3 n
    then t
    else if n == 0
    then erase_rows (t.cur.row + 1) (t.rows - (t.cur.row + 1))
        (erase_in_row t t.cur.row t.cur.col (t.cols - 1))
    else if n == 1
    then erase_in_row (erase_rows 0 t.cur.row t) t.cur.row 0 t.cur.col
    else erase_rows 0 t.rows t

unfoldable pub erase_in_line : Term → ℕ → Term
erase_in_line t n =
    if n == 0
    then erase_in_row t t.cur.row (eff_col t) (t.cols - 1)
    else if n == 1
    then erase_in_row t t.cur.row 0 (eff_col t)
    else erase_in_row t t.cur.row 0 (t.cols - 1)
