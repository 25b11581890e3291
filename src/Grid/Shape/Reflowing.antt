-- ===== src/Grid/Shape/Reflowing.antt =====
-- internal/vt/grid/reflow.go: a reflow keeps the shape.
use gozellij.Prelude.{
  All, ℕ, zero, suc, ◌+◌, ◌<◌, min, ◌≡◌, refl, ap, subst, ◌∙◌, inl, inr, false, some, List, [],
  arith, ltb, Bool-cases, if_elim, length, get_or, take, length-copy,
}
use gozellij.Grid.Cell.{Cell, blank_row, length-blank_row}
use gozellij.Grid.Term.{Term}
use gozellij.Grid.Shape.{WellFormed, length-default_tabs}
use gozellij.Grid.Reflow.{
  fit_row, screen_cells, screen_wrapped, screen_used, lay_screen, reflow_to, Laid, lay_lines,
  no_rows, cursor_place,
}
use gozellij.Grid.Move.{clamp}
use gozellij.Grid.Paragraphs.{logical_lines}

length-fit_row : (row : List Cell) (cols : ℕ) → length (fit_row row cols) ≡ cols
unfolding fit_row
length-fit_row row cols =
    length-copy (blank_row cols) (take (min cols (length row)) row) ∙ length-blank_row cols

length-screen_cells : (a : Laid) (cols src k : ℕ) → length (screen_cells a cols src k) ≡ k
unfolding screen_cells
length-screen_cells a cols src zero = refl
length-screen_cells a cols src (suc k) = ap suc (length-screen_cells a cols (src + 1) k)

row_len-screen_cells :
    (a : Laid) (cols src k : ℕ) → All (λ l. length l ≡ cols) (screen_cells a cols src k)
unfolding screen_cells
row_len-screen_cells a cols src zero = tt
row_len-screen_cells a cols src (suc k) = (
  if_elim (λ l. length l ≡ cols) (ltb src (length a.out)) (fit_row (get_or a.out src []) cols)
      (blank_row cols) (λ _. length-fit_row (get_or a.out src []) cols)
      (λ _. length-blank_row cols),
  row_len-screen_cells a cols (src + 1) k,
)

length-screen_wrapped : (a : Laid) (src k : ℕ) → length (screen_wrapped a src k) ≡ k
unfolding screen_wrapped
length-screen_wrapped a src zero = refl
length-screen_wrapped a src (suc k) = ap suc (length-screen_wrapped a (src + 1) k)

length-screen_used : (a : Laid) (cols src k : ℕ) → length (screen_used a cols src k) ≡ k
unfolding screen_used
length-screen_used a cols src zero = refl
length-screen_used a cols src (suc k) = ap suc (length-screen_used a cols (src + 1) k)

lay_screen-WellFormed :
    (t : Term) (cols rows : ℕ) (a : Laid) (p : ℕ × ℕ)
    → 0 < cols
    → 0 < rows
    → t.on_alt ≡ false
    → t.alt_pending ≡ false
    → WellFormed (lay_screen t cols rows a p)
unfolding lay_screen clamp
lay_screen-WellFormed t cols rows a (r, c) hc hr on pending = record {
  cols_pos = hc;
  rows_pos = hr;
  live = record {
    rows_len = length-screen_cells a cols _ rows;
    row_len = row_len-screen_cells a cols _ rows;
    wrapped_len = length-screen_wrapped a _ rows;
    used_len = length-screen_used a cols _ rows;
  };
  cur_row = omega arith;
  cur_col = omega arith;
  region = omega arith;
  region_on = omega arith;
  tabs_len = length-default_tabs cols;
  hidden = inl (on, pending);
}

-- A reflow that does not fault leaves a well-formed terminal of the new size.
pub reflow_to-WellFormed :
    (t u : Term) (cols rows : ℕ)
    → 0 < cols
    → 0 < rows
    → t.on_alt ≡ false
    → t.alt_pending ≡ false
    → reflow_to t cols rows ≡ some u
    → WellFormed u
unfolding reflow_to
reflow_to-WellFormed t u cols rows hc hr on pending e =
    elim (Bool-cases (lay_lines cols no_rows (logical_lines t)).faulted) [
      | inl f ↦ ground arith
      | inr f ↦
          subst WellFormed (ground arith) (lay_screen-WellFormed t cols rows a p hc hr on pending)
    ]
  where
    a : Laid
    a = lay_lines cols no_rows (logical_lines t)

    p : ℕ × ℕ
    p = cursor_place a.cur (length a.out)
