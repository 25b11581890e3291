-- ===== src/Parser/Safety/Editing.antt =====
-- internal/vt/grid/parser.go: insertion, deletion and erasure stay on the screen.
use gozellij.Prelude.{
  ℕ, zero, suc, ◌+◌, ◌-◌, ◌≤◌, ◌<◌, ◌≡◌, refl, ◌∙◌, ◌⊎◌, inl, inr, none, some, List, ltb, leb, ◌==◌,
  if_elim, length, length-copy_at, copy_at,
}
use gozellij.Grid.Term.{Term}
use gozellij.Parser.Safety.{Ready, Runs, Kept, Kept-Ready, Kept-trans}
use gozellij.Grid.Shape.Editing.{
  region-WellFormed, insert_lines-WellFormed, delete_lines-WellFormed, Overflows, overflow,
}
use gozellij.Parser.Lines.{
  insert_line, delete_line, times, shift_bottom, insert_lines, delete_lines, erase_rows,
  erase_in_display, erase_in_line, erase_chars, delete_chars, insert_chars,
}
use gozellij.Grid.Cell.{Cell}
use gozellij.Grid.Draw.{erase_in_row, with_row, row_of}
use gozellij.Parser.Numbers.{max_int}
use gozellij.Grid.Move.{eff_col}
use gozellij.Grid.Shape.Rows.{erase_in_row-WellFormed, redrawn-WellFormed, row_len_at}

-- Another scrolling region on the screen.
pub region-Ready :
    (t : Term) (top bottom : ℕ)
    → top ≤ bottom
    → bottom < t.rows
    → Ready t
    → Ready (record t { top = top; bottom = bottom })
region-Ready t top bottom h l r =
    Kept-Ready (record t { top = top; bottom = bottom }) r
      (region-WellFormed t top bottom h l r.shape) (refl, refl, refl, refl)

times-Kept :
    (n : ℕ) (f : Term → Term) → ((t : Term) → Kept t (f t)) → (t : Term) → Kept t (times n f t)
unfolding times
times-Kept zero f h t = (refl, refl, refl, refl)
times-Kept (suc n) f h t = Kept-trans t (f t) (times n f (f t)) (h t) (times-Kept n f h (f t))

insert_line-Kept : (bottom : ℕ) (t : Term) → Kept t (insert_line bottom t)
unfolding insert_line
insert_line-Kept bottom t = (refl, refl, refl, refl)

pub insert_lines-Ready : (t : Term) (n : ℕ) → Ready t → Ready (insert_lines t n)
insert_lines-Ready t n r = Kept-Ready (insert_lines t n) r (insert_lines-WellFormed t n r.shape) (
    unfold insert_lines in
    if_elim (Kept t) (ltb (shift_bottom t) t.cur.row) t _ (λ _. (refl, refl, refl, refl))
      (λ _. times-Kept n (insert_line (shift_bottom t)) (insert_line-Kept (shift_bottom t)) t))

delete_line-Kept : (bottom : ℕ) (t : Term) → Kept t (delete_line bottom t)
unfolding delete_line
delete_line-Kept bottom t = (refl, refl, refl, refl)

pub delete_lines-Ready : (t : Term) (n : ℕ) → Ready t → Ready (delete_lines t n)
delete_lines-Ready t n r = Kept-Ready (delete_lines t n) r (delete_lines-WellFormed t n r.shape) (
    unfold delete_lines in
    if_elim (Kept t) (ltb (shift_bottom t) t.cur.row) t _ (λ _. (refl, refl, refl, refl))
      (λ _. times-Kept n (delete_line (shift_bottom t)) (delete_line-Kept (shift_bottom t)) t))

erase_in_row-Kept : (t : Term) (row from to : ℕ) → Kept t (erase_in_row t row from to)
unfolding erase_in_row
erase_in_row-Kept t row from to =
    if_elim (Kept t) (leb t.rows row) t _ (λ _. (refl, refl, refl, refl))
      (λ _. (refl, refl, refl, refl))

pub erase_in_row-Ready : (t : Term) (row from to : ℕ) → Ready t → Ready (erase_in_row t row from to)
erase_in_row-Ready t row from to r =
    Kept-Ready (erase_in_row t row from to) r (erase_in_row-WellFormed t row from to r.shape)
      (erase_in_row-Kept t row from to)

erase_rows-Ready : (k row : ℕ) (t : Term) → Ready t → Ready (erase_rows row k t)
unfolding erase_rows
erase_rows-Ready zero row t r = r
erase_rows-Ready (suc k) row t r =
    erase_rows-Ready k (row + 1) (erase_in_row t row 0 (t.cols - 1))
      (erase_in_row-Ready t row 0 (t.cols - 1) r)

pub erase_in_display-Ready : (t : Term) (n : ℕ) → Ready t → Ready (erase_in_display t n)
unfolding erase_in_display
erase_in_display-Ready t n r =
    if_elim Ready (ltb 3 n) t _ (λ _. r)
      (λ _.
        if_elim Ready (n == 0) _ _ (λ _. erase_rows-Ready _ _ _ (erase_in_row-Ready t _ _ _ r))
          (λ _.
            if_elim Ready (n == 1) _ _ (λ _. erase_in_row-Ready _ _ _ _ (erase_rows-Ready _ _ t r))
              (λ _. erase_rows-Ready _ _ t r)))

pub erase_in_line-Ready : (t : Term) (n : ℕ) → Ready t → Ready (erase_in_line t n)
unfolding erase_in_line
erase_in_line-Ready t n r =
    if_elim Ready (n == 0) _ _ (λ _. erase_in_row-Ready t _ _ _ r)
      (λ _.
        if_elim Ready (n == 1) _ _ (λ _. erase_in_row-Ready t _ _ _ r)
          (λ _. erase_in_row-Ready t _ _ _ r))

pub erase_chars-Ready : (t : Term) (n : ℕ) → Ready t → Ready (erase_chars t n)
unfolding erase_chars
erase_chars-Ready t n r =
    if_elim Ready (ltb max_int (eff_col t + n - 1)) t _ (λ _. r) (λ _. erase_in_row-Ready t _ _ _ r)

redrawn-Ready :
    (t : Term) (row : ℕ) (line : List Cell)
    → length line ≡ t.cols
    → Ready t
    → Ready (with_row t row line)
redrawn-Ready t row line e r =
    Kept-Ready (with_row t row line) r
      (redrawn-WellFormed t row line t.used e r.shape.live.used_len r.shape)
      (refl, refl, refl, refl)

copied-Ready :
    (t : Term) (at : ℕ) (cells : List Cell)
    → Ready t
    → Ready (with_row t t.cur.row (copy_at (row_of t t.cur.row) at cells))
copied-Ready t at cells r =
    redrawn-Ready t t.cur.row _
      (length-copy_at (row_of t t.cur.row) at cells
        ∙ row_len_at t t.cur.row r.shape r.shape.cur_row)
      r

pub delete_chars-Runs :
    (t : Term) (n : ℕ)
    → Ready t
    → Runs (delete_chars t n) ⊎ ((delete_chars t n ≡ none) × Overflows t n)
unfolding delete_chars
delete_chars-Runs t n r =
    if_elim (λ o. Runs o ⊎ ((o ≡ none) × Overflows t n)) (leb t.cols (eff_col t)) (some t) _
      (λ _. inl (t, refl, r))
      (λ h.
        if_elim (λ o. Runs o ⊎ ((o ≡ none) × Overflows t n)) (ltb max_int (eff_col t + n)) none _
          (λ o. inr (refl, overflow t n h o))
          (λ _. inl (_, refl, erase_in_row-Ready _ _ _ _ (copied-Ready t (eff_col t) _ r))))

pub insert_chars-Runs :
    (t : Term) (n : ℕ)
    → Ready t
    → Runs (insert_chars t n) ⊎ ((insert_chars t n ≡ none) × Overflows t n)
unfolding insert_chars
insert_chars-Runs t n r =
    if_elim (λ o. Runs o ⊎ ((o ≡ none) × Overflows t n)) (leb t.cols (eff_col t)) (some t) _
      (λ _. inl (t, refl, r))
      (λ h.
        if_elim (λ o. Runs o ⊎ ((o ≡ none) × Overflows t n)) (ltb max_int (eff_col t + n)) none _
          (λ o. inr (refl, overflow t n h o))
          (λ _. inl (_, refl, erase_in_row-Ready _ _ _ _ (copied-Ready t _ _ r))))
