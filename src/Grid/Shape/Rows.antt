-- ===== src/Grid/Shape/Rows.antt =====
-- internal/vt/grid/grid.go: changes to one row keep the shape.
use gozellij.Prelude.{
  All-set, All-get_or, List-cases, ℕ, zero, suc, ◌+◌, ◌-◌, ◌<◌, min, ◌≡◌, refl, ◌∙◌, inl, inr, Bool,
  true, false, not, ◌&&◌, ◌||◌, List, [], arith, ltb, leb, ◌==◌, if◌then◌else◌, Bool-cases, length,
  get_or, set, length-copy_at, length-set,
}
use gozellij.Grid.Cell.{Cell, space}
use gozellij.Grid.Term.{Term}
use gozellij.Grid.Shape.{WellFormed}
use gozellij.Grid.Draw.{fill_cells, row_of, erase_in_row, combine, shift_right, back_to_content}
use gozellij.Grid.Shape.Scrolling.{regrid-WellFormed}
use gozellij.Grid.Scroll.{remember, line_feed, wrap_line, scroll_up, at_col, scroll_up_one}

pub length-fill_cells :
    (line : List Cell) (col n : ℕ) (c : Cell) → length (fill_cells line col n c) ≡ length line
unfolding fill_cells
length-fill_cells line col zero c = refl
length-fill_cells line col (suc n) c =
    length-fill_cells (set line col c) (col + 1) n c ∙ length-set line col c

pub row_len_at : (t : Term) (row : ℕ) → WellFormed t → row < t.rows → length (row_of t row) ≡ t.cols
row_len_at t row v h =
    All-get_or (λ l. length l ≡ t.cols) t.cells row [] v.live.row_len
      (omega (arith, v.live.rows_len))

-- One row redrawn at its width, with a count of used columns within the screen.
pub redrawn-WellFormed :
    (t : Term) (row : ℕ) (line : List Cell) (used : List ℕ)
    → length line ≡ t.cols
    → length used ≡ t.rows
    → WellFormed t
    → WellFormed (record t { cells = set t.cells row line; used = used })
redrawn-WellFormed t row line used e l v =
    regrid-WellFormed t (set t.cells row line) t.wrapped used t.hist
      (record {
        rows_len = length-set t.cells row line ∙ v.live.rows_len;
        row_len = All-set _ t.cells row line v.live.row_len e;
        wrapped_len = v.live.wrapped_len;
        used_len = l;
      })
      v

pub used_set : (t : Term) (row u : ℕ) → WellFormed t → length (set t.used row u) ≡ t.rows
used_set t row u v = length-set t.used row u ∙ v.live.used_len

pub erase_in_row-WellFormed :
    (t : Term) (row from to : ℕ) → WellFormed t → WellFormed (erase_in_row t row from to)
unfolding erase_in_row
erase_in_row-WellFormed t row from to v = elim (Bool-cases (leb t.rows row)) [
  | inl e ↦ rw e v
  | inr e ↦ rw e (
      redrawn-WellFormed t row _ t.used
        (length-fill_cells (row_of t row) from _ _ ∙ row_len_at t row v (ground arith))
        v.live.used_len v)
]

pub combine-WellFormed : (t : Term) (rune : ℕ) → WellFormed t → WellFormed (combine t rune)
unfolding combine
combine-WellFormed t rune v = elim (Bool-cases ((t.cur.col == 0) && not t.pend)) [
  | inl e ↦ rw e v
  | inr e ↦ rw e (elim (List-cases cell.content) [
    | inl none_there ↦ rw (none_there, combine) v
    | inr (c, cs, there) ↦
        rw (there, combine)
          (redrawn-WellFormed t t.cur.row _ t.used
            (length-set line col _ ∙ row_len_at t t.cur.row v v.cur_row) v.live.used_len v)
  ])
]
  where
    line : List Cell
    line = row_of t t.cur.row

    col : ℕ
    col = back_to_content line (if t.pend then t.cols - 1 else t.cur.col - 1)

    cell : Cell
    cell = get_or line col space

shift_right_used :
    (t : Term) (row n : ℕ)
    → WellFormed t
    → let used =
        if ltb 0 (get_or t.used row 0)
        then set t.used row (min (get_or t.used row 0 + n) t.cols)
        else t.used in
      length used ≡ t.rows
shift_right_used t row n v = elim (Bool-cases (ltb 0 (get_or t.used row 0))) [
  | inl e ↦ rw e (used_set t row (min (get_or t.used row 0 + n) t.cols) v)
  | inr e ↦ rw e v.live.used_len
]

pub shift_right-WellFormed :
    (t : Term) (row col n : ℕ) → row < t.rows → WellFormed t → WellFormed (shift_right t row col n)
unfolding shift_right
shift_right-WellFormed t row col n h v = elim (Bool-cases ((n == 0) || leb t.cols col)) [
  | inl e ↦ rw e v
  | inr e ↦
      let used = shift_right_used t row n v in
      rw e (
        redrawn-WellFormed t row _ _
          (length-fill_cells _ col _ _
            ∙ length-copy_at (row_of t row) (col + n) _
            ∙ row_len_at t row v h)
          used v)
]

-- What drawing leaves alone.
abbrev pub SameScreen : Term → Term → Type 0
SameScreen t u = (u.cols ≡ t.cols) × (u.rows ≡ t.rows) × (u.cur ≡ t.cur) × (u.awm ≡ t.awm)

pub shift_right_same : (t : Term) (row col n : ℕ) → SameScreen t (shift_right t row col n)
unfolding shift_right
shift_right_same t row col n = elim (Bool-cases ((n == 0) || leb t.cols col)) [
  | inl e ↦ rw e (refl, refl, refl, refl)
  | inr e ↦ rw e (refl, refl, refl, refl)
]

-- What a wrap does to the cursor's column and the width.
remember_same :
    (t : Term) (line : List Cell) (w : Bool) (u : ℕ) → SameScreen t (remember t line w u)
unfolding remember
remember_same t line w u = elim (Bool-cases t.on_alt) [
  | inl e ↦ rw e (refl, refl, refl, refl)
  | inr e ↦ rw e (refl, refl, refl, refl)
]

line_feed_same : (t : Term) → ((line_feed t).cols ≡ t.cols) × ((line_feed t).cur.col ≡ t.cur.col)
unfolding line_feed scroll_up scroll_up_one remember
line_feed_same t = ground arith

pub wrap_line_same : (t : Term) → ((wrap_line t).cols ≡ t.cols) × ((wrap_line t).cur.col ≡ 0)
unfolding wrap_line
wrap_line_same t =
    line_feed_same (at_col (record t { wrapped = set t.wrapped t.cur.row true; pend = false }) 0)
