-- ===== src/Grid/Shape/Editing.antt =====
-- internal/vt/grid/parser.go: lines and characters inserted and deleted, the scrolling region, the slot of
-- mode 1048, reverse index and backspace.
use gozellij.Prelude.{
  ℕ, zero, suc, ◌+◌, ◌-◌, ◌≤◌, ◌<◌, ◌≡◌, refl, ◌∙◌, ◌⊎◌, inl, inr, true, false, ◌||◌, Option, none,
  some, List, arith, ltb, leb, ◌==◌, Bool-cases, if_elim, length-copy_at, copy_at,
}
use gozellij.Grid.Term.{Term}
use gozellij.Grid.Shape.{WellFormed}
use gozellij.Parser.Lines.{
  insert_line, delete_line, times, shift_bottom, insert_lines, delete_lines, delete_chars,
  insert_chars,
}
use gozellij.Grid.Cell.{Cell, blank_row, length-blank_row}
use gozellij.Grid.Draw.{with_row, row_of}
use gozellij.Parser.Numbers.{max_int, Param, arg}
use gozellij.Parser.Csi.{set_scroll_region}
use gozellij.Parser.Csi
use gozellij.Grid.Move.{eff_col, save_1048, move_to, clamp}
use gozellij.Grid.Shape.Scrolling.{
  shift_down-Fits, shift_up-Fits, regrid-WellFormed, moved-WellFormed, scroll_down-WellFormed,
}
use gozellij.Grid.Shape.Rows.{erase_in_row-WellFormed, redrawn-WellFormed, row_len_at}
use gozellij.Parser.Escape.{reverse_index}
use gozellij.Parser.Control.{backspace}

-- Another scrolling region on the screen.
pub region-WellFormed :
    (t : Term) (top bottom : ℕ)
    → top ≤ bottom
    → bottom < t.rows
    → WellFormed t
    → WellFormed (record t { top = top; bottom = bottom })
region-WellFormed t top bottom h l v = record {
  cols_pos = v.cols_pos;
  rows_pos = v.rows_pos;
  live = v.live;
  cur_row = v.cur_row;
  cur_col = v.cur_col;
  region = h;
  region_on = l;
  tabs_len = v.tabs_len;
  hidden = v.hidden;
}

pub save_1048-WellFormed : (t : Term) → WellFormed t → WellFormed (save_1048 t)
unfolding save_1048
save_1048-WellFormed t v = record {
  cols_pos = v.cols_pos;
  rows_pos = v.rows_pos;
  live = v.live;
  cur_row = v.cur_row;
  cur_col = v.cur_col;
  region = v.region;
  region_on = v.region_on;
  tabs_len = v.tabs_len;
  hidden = v.hidden;
}

insert_times :
    (n : ℕ) (t : Term) (bottom : ℕ)
    → t.cur.row ≤ bottom
    → bottom < t.rows
    → WellFormed t
    → WellFormed (times n (insert_line bottom) t)
unfolding times insert_line
insert_times zero t bottom h l v = v
insert_times (suc n) t bottom h l v = insert_times n (insert_line bottom t) bottom h l (
    regrid-WellFormed t _ _ _ t.hist
      (shift_down-Fits (record t { top = t.cur.row; bottom = bottom })
        (region-WellFormed t t.cur.row bottom h l v))
      v)

delete_times :
    (n : ℕ) (t : Term) (bottom : ℕ)
    → t.cur.row ≤ bottom
    → bottom < t.rows
    → WellFormed t
    → WellFormed (times n (delete_line bottom) t)
unfolding times delete_line
delete_times zero t bottom h l v = v
delete_times (suc n) t bottom h l v = delete_times n (delete_line bottom t) bottom h l (
    regrid-WellFormed t _ _ _ t.hist
      (shift_up-Fits (record t { top = t.cur.row; bottom = bottom }) (blank_row t.cols)
        (length-blank_row t.cols) (region-WellFormed t t.cur.row bottom h l v))
      v)

shift_bottom-lt : (t : Term) → WellFormed t → shift_bottom t < t.rows
unfolding shift_bottom
shift_bottom-lt t v = ground (arith, v.region_on, v.rows_pos)

pub insert_lines-WellFormed : (t : Term) (n : ℕ) → WellFormed t → WellFormed (insert_lines t n)
unfolding insert_lines
insert_lines-WellFormed t n v =
    if_elim WellFormed (ltb (shift_bottom t) t.cur.row) t _ (λ _. v)
      (λ e. insert_times n t (shift_bottom t) (ground arith) (shift_bottom-lt t v) v)

pub delete_lines-WellFormed : (t : Term) (n : ℕ) → WellFormed t → WellFormed (delete_lines t n)
unfolding delete_lines
delete_lines-WellFormed t n v =
    if_elim WellFormed (ltb (shift_bottom t) t.cur.row) t _ (λ _. v)
      (λ e. delete_times n t (shift_bottom t) (ground arith) (shift_bottom-lt t v) v)

pub set_scroll_region-WellFormed :
    (t : Term) (ps : List Param) → WellFormed t → WellFormed (set_scroll_region t ps)
unfolding set_scroll_region move_to clamp
set_scroll_region-WellFormed t ps v =
    if_elim WellFormed (Csi.is_zero ps 0 || Csi.is_zero ps 1) t _ (λ _. v)
      (λ _.
        if_elim WellFormed (leb t.rows bottom || leb bottom top) t _ (λ _. v)
          (λ h.
            moved-WellFormed (record t { top = top; bottom = bottom }) _ false
              (omega (arith, v.rows_pos)) (omega (arith, v.cols_pos))
              (region-WellFormed t top bottom (ground arith) (ground arith) v)))
  where
    top : ℕ
    top = arg ps 0 1 - 1

    bottom : ℕ
    bottom = arg ps 1 t.rows - 1

-- The count of a deletion or an insertion of characters takes the column past the largest `int`.
abbrev pub Overflows : Term → ℕ → Type 0
Overflows t n = (t.pend ≡ false) × (max_int < t.cur.col + n)

pub overflow :
    (t : Term) (n : ℕ)
    → leb t.cols (eff_col t) ≡ false
    → ltb max_int (eff_col t + n) ≡ true
    → Overflows t n
unfolding eff_col
overflow t n h o = elim (Bool-cases t.pend) [ inl e ↦ ground arith | inr e ↦ (e, ground arith) ]

copied-WellFormed :
    (t : Term) (at : ℕ) (cells : List Cell)
    → WellFormed t
    → WellFormed (with_row t t.cur.row (copy_at (row_of t t.cur.row) at cells))
copied-WellFormed t at cells v =
    redrawn-WellFormed t t.cur.row _ t.used
      (length-copy_at (row_of t t.cur.row) at cells ∙ row_len_at t t.cur.row v v.cur_row)
      v.live.used_len v

-- What came of an operation that may overflow.
abbrev pub Edited : Term → ℕ → Option Term → Type 0
Edited t n o = ((u : Term) × (o ≡ some u) × WellFormed u) ⊎ ((o ≡ none) × Overflows t n)

pub delete_chars-WellFormed : (t : Term) (n : ℕ) → WellFormed t → Edited t n (delete_chars t n)
unfolding delete_chars
delete_chars-WellFormed t n v =
    if_elim (Edited t n) (leb t.cols (eff_col t)) (some t) _ (λ _. inl (t, refl, v))
      (λ h.
        if_elim (Edited t n) (ltb max_int (eff_col t + n)) none _
          (λ o. inr (refl, overflow t n h o))
          (λ _.
            inl (_, refl, erase_in_row-WellFormed _ _ _ _ (copied-WellFormed t (eff_col t) _ v))))

pub insert_chars-WellFormed : (t : Term) (n : ℕ) → WellFormed t → Edited t n (insert_chars t n)
unfolding insert_chars
insert_chars-WellFormed t n v =
    if_elim (Edited t n) (leb t.cols (eff_col t)) (some t) _ (λ _. inl (t, refl, v))
      (λ h.
        if_elim (Edited t n) (ltb max_int (eff_col t + n)) none _
          (λ o. inr (refl, overflow t n h o))
          (λ _. inl (_, refl, erase_in_row-WellFormed _ _ _ _ (copied-WellFormed t _ _ v))))

pub reverse_index-WellFormed : (t : Term) → WellFormed t → WellFormed (reverse_index t)
unfolding reverse_index
reverse_index-WellFormed t v =
    if_elim WellFormed (t.cur.row == t.top) _ _ (λ _. scroll_down-WellFormed 1 t v)
      (λ _.
        if_elim WellFormed (ltb 0 t.cur.row) _ t
          (λ _. moved-WellFormed t _ t.pend (omega (arith, v.cur_row)) v.cur_col v) (λ _. v))

pub backspace-WellFormed : (t : Term) → WellFormed t → WellFormed (backspace t)
unfolding backspace
backspace-WellFormed t v =
    if_elim WellFormed t.pend _ _ (λ _. moved-WellFormed t t.cur false v.cur_row v.cur_col v)
      (λ _.
        if_elim WellFormed (ltb 0 t.cur.col) _ t
          (λ _. moved-WellFormed t _ t.pend v.cur_row (omega (arith, v.cur_col)) v) (λ _. v))
