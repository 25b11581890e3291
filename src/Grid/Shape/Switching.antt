-- ===== src/Grid/Shape/Switching.antt =====
-- internal/vt/grid/grid.go and reflow.go: a resize and the alternate screen keep the shape.
use gozellij.Prelude.{
  All, ℕ, zero, suc, ◌+◌, ◌<◌, ◌≡◌, refl, ap, subst, ◌∙◌, inl, inr, Bool, true, false, ◌||◌, Option,
  none, some, List, [], arith, ltb, Bool-cases, if_elim, length, get_or, take, replicate,
  length-replicate, length-copy,
}
use gozellij.Grid.Cell.{Cell, blank_row, length-blank_row}
use gozellij.Grid.Term.{Term}
use gozellij.Grid.Shape.{WellFormed, blank-Fits, length-default_tabs, Fits}
use gozellij.Grid.Resize.{
  enter_alt, resize_rows, resize_on_alt, resize, leave_alt, resize_cells, settle, swap_back,
  restore_alt_cursor, left, come_back,
}
use gozellij.Grid.Shape.Scrolling.{moved-WellFormed}
use gozellij.Grid.Shape.Reflowing.{reflow_to-WellFormed}

not_pending : (t : Term) → WellFormed t → t.on_alt ≡ false → t.alt_pending ≡ false
not_pending t v off = elim v.hidden [
  | inl (_, p) ↦ p
  | inr (inl (on, _, _)) ↦ cc
  | inr (inr (on, _)) ↦ cc
]

pub enter_alt-WellFormed : (t : Term) (save : Bool) → WellFormed t → WellFormed (enter_alt t save)
unfolding enter_alt
enter_alt-WellFormed t save v =
    if_elim (λ (u : Term). WellFormed u) t.on_alt t _ (λ _. v)
      λ off. record {
        cols_pos = v.cols_pos;
        rows_pos = v.rows_pos;
        live = blank-Fits t.cols t.rows;
        cur_row = v.cur_row;
        cur_col = v.cur_col;
        region = v.region;
        region_on = v.region_on;
        tabs_len = v.tabs_len;
        hidden = inr (inl (refl, not_pending t v off, v.live));
      }

length-resize_rows :
    (cells : List (List Cell)) (cols r k : ℕ)
    → (length (resize_rows cells cols r k) ≡ k)
      × All (λ l. length l ≡ cols) (resize_rows cells cols r k)
unfolding resize_rows
length-resize_rows cells cols r zero = (refl, tt)
length-resize_rows cells cols r (suc k) =
    let more = length-resize_rows cells cols (r + 1) k in
    (
      ap suc more.0,
      (
        length-copy (blank_row cols) (take cols (get_or cells r [])) ∙ length-blank_row cols,
        more.1,
      ),
    )

resize_on_alt-WellFormed :
    (t : Term) (cols rows : ℕ)
    → 0 < cols
    → 0 < rows
    → t.on_alt ≡ true
    → WellFormed (resize_on_alt t cols rows)
unfolding resize_on_alt resize_cells
resize_on_alt-WellFormed t cols rows hc hr on = record {
  cols_pos = hc;
  rows_pos = hr;
  live = record {
    rows_len = (length-resize_rows t.cells cols 0 rows).0;
    row_len = (length-resize_rows t.cells cols 0 rows).1;
    wrapped_len =
        length-copy (replicate rows false) (take rows t.wrapped) ∙ length-replicate rows false;
    used_len = length-copy (replicate rows 0) (take rows t.used) ∙ length-replicate {A = ℕ} rows 0;
  };
  cur_row = omega arith;
  cur_col = omega arith;
  region = omega arith;
  region_on = omega arith;
  tabs_len = length-default_tabs cols;
  hidden = inr (inr (on, refl));
}

-- A resize that returns leaves a well-formed terminal.
pub resize-WellFormed :
    (t u : Term) (cols rows : ℕ) → WellFormed t → resize t cols rows ≡ some u → WellFormed u
unfolding resize
resize-WellFormed t u cols rows v e = elim (Bool-cases (ltb cols 1 || ltb rows 1)) [
  | inl tiny ↦ subst WellFormed {x = t} (ground arith) v
  | inr big ↦ elim (Bool-cases t.on_alt) [
    | inl on ↦
        subst WellFormed {x = resize_on_alt t cols rows} (ground arith)
          (resize_on_alt-WellFormed t cols rows (ground arith) (ground arith) on)
    | inr off ↦
        reflow_to-WellFormed t u cols rows (ground arith) (ground arith) off (not_pending t v off)
          (ground arith)
  ]
]

pub swap_back-WellFormed :
    (t : Term)
    → t.alt_pending ≡ false
    → Fits t.cols t.rows t.alt t.alt_wrapped t.alt_used
    → WellFormed t
    → WellFormed (swap_back t)
unfolding swap_back
swap_back-WellFormed t p f v = record {
  cols_pos = v.cols_pos;
  rows_pos = v.rows_pos;
  live = f;
  cur_row = v.cur_row;
  cur_col = v.cur_col;
  region = v.region;
  region_on = v.region_on;
  tabs_len = v.tabs_len;
  hidden = inl (refl, p);
}

pub come_back-WellFormed :
    (t : Term) (restore : Bool) → WellFormed t → WellFormed (come_back restore t)
unfolding restore_alt_cursor
come_back-WellFormed t true v =
    moved-WellFormed t (restore_alt_cursor t).cur false (omega (arith, v.rows_pos))
      (omega (arith, v.cols_pos)) v
come_back-WellFormed t false v = moved-WellFormed t t.cur false v.cur_row v.cur_col v

left-WellFormed :
    (restore : Bool) (o : Option Term) (u : Term)
    → ((w : Term) → o ≡ some w → WellFormed w)
    → left restore o ≡ some u
    → WellFormed u
left-WellFormed restore none u h e = cc
left-WellFormed restore (some w) u h e =
    subst WellFormed {x = come_back restore w} (ground arith)
      (come_back-WellFormed w restore (h w refl))

settle-WellFormed :
    (t w : Term) → t.on_alt ≡ true → WellFormed t → settle (swap_back t) ≡ some w → WellFormed w
unfolding settle
settle-WellFormed t w on v e = elim v.hidden [
  | inl (off, _) ↦ cc
  | inr (inl (_, p, f)) ↦
      subst WellFormed {x = swap_back t} (unfold swap_back in ground arith)
        (swap_back-WellFormed t p f v)
  | inr (inr (_, p)) ↦
      reflow_to-WellFormed (record (swap_back t) { alt_pending = false }) w t.cols t.rows v.cols_pos
        v.rows_pos (unfold swap_back in refl) refl (unfold swap_back in ground arith)
]

-- Leaving the alternate screen, also after the window changed its size meanwhile, leaves a
-- well-formed terminal when it returns.
pub leave_alt-WellFormed :
    (t u : Term) (restore : Bool) → WellFormed t → leave_alt t restore ≡ some u → WellFormed u
unfolding leave_alt
leave_alt-WellFormed t u restore v e = elim (Bool-cases t.on_alt) [
  | inl on ↦
      left-WellFormed restore (settle (swap_back t)) u (λ w. settle-WellFormed t w on v)
        (ground arith)
  | inr off ↦ subst WellFormed {x = t} (ground arith) v
]
