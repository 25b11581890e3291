-- ===== src/Grid/Shape/Narrow.antt =====
-- internal/vt/grid/reflow.go: a reflow of characters no wider than the screen does not panic.
use gozellij.Prelude.{
  ℕ, ◌+◌, ◌≡◌, refl, ap₂, ◌∙◌, inl, inr, Bool, true, false, ◌&&◌, ◌||◌, Option, none, some, List,
  [], ◌∷◌, arith, ltb, leb, if◌then◌else◌, Bool-cases, if_elim, length,
}
use gozellij.Grid.Term.{Term}
use gozellij.Grid.Cell.{Cell}
use gozellij.Grid.Paragraphs.{Logical, logical_lines}
use gozellij.Grid.Wrap.{
  wrap_cell, wrap_from, wrap_cursor, wrap_cells, cell_width, place, is_at, is_continuation,
  Wrapping, flush, start_wrapping,
}
use gozellij.Grid.Reflow.{lay_lines, reflow_to, Laid, no_rows, lay_line}

-- Whether every cell of a paragraph, or of all, is no wider than `cols`.
pub narrow_cells : ℕ → List Cell → Bool
narrow_cells cols [] = true
narrow_cells cols (c ∷ cs) = leb (cell_width c) cols && narrow_cells cols cs

pub narrow_lines : ℕ → List Logical → Bool
narrow_lines cols [] = true
narrow_lines cols (l ∷ ls) = narrow_cells cols l.cells && narrow_lines cols ls

not_over : (width cols : ℕ) → leb width cols ≡ true → ltb cols (0 + width) ≡ false
not_over width cols h = ground arith

-- A flush makes the room that a cell no wider than the screen needs.
faulted-place :
    (cols : ℕ) (c : Cell) (width : ℕ) (w : Wrapping) (at : Option ℕ) (i : ℕ)
    → leb width cols ≡ true
    → w.faulted ≡ false
    → ltb cols (w.col + width) ≡ false
    → (place cols c width
        (if is_at at i then record w { cursor_at = some (length w.rows, w.col) } else w)).faulted
      ≡ false
unfolding place
faulted-place cols c width w at i h f fits =
    if_elim (λ x. (x.faulted || ltb cols (x.col + width)) ≡ false) (is_at at i) _ w
      (λ _. ap₂ (λ p q. p || q) f fits) (λ _. ap₂ (λ p q. p || q) f fits)

faulted-wrap_cell :
    (cols : ℕ) (cursor : Option ℕ) (i : ℕ) (c : Cell) (w : Wrapping)
    → leb (cell_width c) cols ≡ true
    → w.faulted ≡ false
    → (wrap_cell cols cursor i c w).faulted ≡ false
unfolding wrap_cell flush
faulted-wrap_cell cols cursor i c w h f =
    if_elim (λ x. x.faulted ≡ false) (is_continuation c) w _ (λ _. f)
      (λ _. elim (Bool-cases (ltb cols (w.col + cell_width c))) [
        | inl over ↦ rw over (
            faulted-place cols c (cell_width c) (flush cols w) cursor i h f
              (not_over (cell_width c) cols h))
        | inr fits ↦ rw fits (faulted-place cols c (cell_width c) w cursor i h f fits)
      ])

faulted-wrap_from :
    (cells : List Cell) (cols : ℕ) (cursor : Option ℕ) (i : ℕ) (w : Wrapping)
    → narrow_cells cols cells ≡ true
    → w.faulted ≡ false
    → (wrap_from cols cursor i cells w).faulted ≡ false
unfolding wrap_from narrow_cells
faulted-wrap_from [] cols cursor i w n f = f
faulted-wrap_from (c ∷ cs) cols cursor i w n f =
    faulted-wrap_from cs cols cursor (i + 1) (wrap_cell cols cursor i c w) (ground arith)
      (faulted-wrap_cell cols cursor i c w (ground arith) f)

faulted-wrap_cursor :
    (cols : ℕ) (cursor : Option ℕ) (n : ℕ) (w : Wrapping)
    → (wrap_cursor cols cursor n w).faulted ≡ w.faulted
unfolding wrap_cursor flush
faulted-wrap_cursor cols none n w = refl
faulted-wrap_cursor cols (some k) n w = ground arith

faulted-wrap_cells :
    (cells : List Cell) (cols : ℕ) (cursor : Option ℕ)
    → narrow_cells cols cells ≡ true
    → (wrap_cells cells cols cursor).faulted ≡ false
unfolding wrap_cells start_wrapping flush
faulted-wrap_cells cells cols cursor n =
    faulted-wrap_cursor cols cursor (length cells) _
    ∙ faulted-wrap_from cells cols cursor 0 (start_wrapping cols) n refl

faulted-lay_lines :
    (ls : List Logical) (cols : ℕ) (a : Laid)
    → narrow_lines cols ls ≡ true
    → a.faulted ≡ false
    → (lay_lines cols a ls).faulted ≡ false
unfolding lay_lines narrow_lines
faulted-lay_lines [] cols a n f = f
faulted-lay_lines (l ∷ ls) cols a n f =
    faulted-lay_lines ls cols (lay_line cols a l) (ground arith)
      (unfold lay_line in ground (arith, faulted-wrap_cells l.cells cols l.cursor))

pub reflow_to_total :
    (t : Term) (cols rows : ℕ)
    → narrow_lines cols (logical_lines t) ≡ true
    → (u : Term) × (reflow_to t cols rows ≡ some u)
unfolding reflow_to no_rows
reflow_to_total t cols rows n =
    rw (faulted-lay_lines (logical_lines t) cols no_rows n refl) (_, refl)
