-- ===== src/Grid/Draw.antt =====
-- internal/vt/grid/grid.go: drawing and erasing.
--
-- `put_string` writes at the cursor and behind it. Go panics at a write past the end of a row;
-- there its result is `none`.
use gozellij.Prelude.{
  ℕ, zero, suc, ◌+◌, ◌-◌, min, max, not, ◌&&◌, ◌||◌, Option, none, some, List, [], ◌∷◌, ◌++◌, ltb,
  leb, ◌==◌, if◌then◌else◌, length, get_or, set, copy_at, slice,
}
use gozellij.Grid.Cell.{Cell, space_in, continuation, space, plain_on}
use gozellij.Grid.Term.{Term}
use gozellij.Grid.Scroll.{wrap_line, at_col}

abbrev pub row_of : Term → ℕ → List Cell
row_of t row = get_or t.cells row []

abbrev pub with_row : Term → ℕ → List Cell → Term
with_row t row line = record t { cells = set t.cells row line }

-- The first `n` of a row from column `col` on become what `fill` says.
unfoldable pub fill_cells : List Cell → ℕ → ℕ → Cell → List Cell
fill_cells line col zero fill = line
fill_cells line col (suc n) fill = fill_cells (set line col fill) (col + 1) n fill

-- `shiftRight`: a row's cells move right from a column, and spaces take their place.
unfoldable pub shift_right : Term → ℕ → ℕ → ℕ → Term
shift_right t row col n =
    let line = row_of t row in
    let moved = copy_at line (col + n) (slice line col (t.cols - n)) in
    let blanked = fill_cells moved col (min (col + n) t.cols - col) (space_in t.style) in
    let old = get_or t.used row 0 in
    if (n == 0) || leb t.cols col then t else record t {
      cells = set t.cells row blanked;
      used = if ltb 0 old then set t.used row (min (old + n) t.cols) else t.used;
    }

-- The guards of `putString` before anything is written.
unfoldable pub make_room : Term → ℕ → Term
make_room t width =
    let t' = if t.pend then wrap_line t else t in
    if ltb t'.cols (t'.cur.col + width)
    then (if t'.awm then wrap_line t' else at_col t' (t'.cols - width))
    else t'

-- The writes to the cells of the cursor's row, `none` where one is past its end.
unfoldable pub write_cells : Term → List ℕ → ℕ → Option Term
write_cells t content width =
    let row = t.cur.row in
    let col = t.cur.col in
    let line =
      set (row_of t row) col (record { content = content; width = width; style = t.style }) in
    if ltb (length (row_of t row)) (col + max width 1)
    then none
    else some (record t {
      cells = set t.cells row (fill_cells line (col + 1) (width - 1) (continuation t.style));
      used =
          if ltb (get_or t.used row 0) (col + width) then set t.used row (col + width) else t.used;
    })

-- The cursor moves on, or waits in the last column.
unfoldable pub advance : Term → ℕ → Term
advance t width =
    if leb t.cols (t.cur.col + width)
    then record (at_col t (t.cols - 1)) { pend = t.awm }
    else at_col t (t.cur.col + width)

abbrev pub advanced : ℕ → Option Term → Option Term
advanced width none = none
advanced width (some t) = some (advance t width)

unfoldable pub put_string : Term → List ℕ → ℕ → Option Term
put_string t content width =
    let t' = make_room t width in
    let t'' = if t'.irm then shift_right t' t'.cur.row t'.cur.col width else t' in
    advanced width (write_cells t'' content width)

-- The loop of `combine`: back over cells without content, from column `col`.
unfoldable pub back_to_content : List Cell → ℕ → ℕ
back_to_content line zero = 0
back_to_content line (suc col) =
    let back = back_to_content line col in
    elim (get_or line (suc col) space).content [ [] ↦ back | c ∷ cs ↦ suc col ]

-- A combining mark joins the cell before the cursor.
unfoldable pub combine : Term → ℕ → Term
combine t rune =
    let row = t.cur.row in
    let line = row_of t row in
    let col = back_to_content line (if t.pend then t.cols - 1 else t.cur.col - 1) in
    let cell = get_or line col space in
    if (t.cur.col == 0) && not t.pend then t else elim cell.content [
      | [] ↦ t
      | c ∷ cs ↦ with_row t row (set line col (record cell { content = (c ∷ cs) ++ rune ∷ [] }))
    ]

unfoldable pub put : Term → ℕ → ℕ → Option Term
put t rune width = if width == 0 then some (combine t rune) else put_string t (rune ∷ []) width

-- Columns `from` to `to` of a row, both included, become spaces on the current background.
unfoldable pub erase_in_row : Term → ℕ → ℕ → ℕ → Term
erase_in_row t row from to =
    if leb t.rows row
    then t
    else with_row t row (
        fill_cells (row_of t row) from (min (to + 1) t.cols - from)
          (space_in (plain_on t.style.bg)))
