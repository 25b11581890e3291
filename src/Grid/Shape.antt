-- ===== src/Grid/Shape.antt =====
-- internal/vt/grid/grid.go: the shape that every state of the emulator has, so that no index of
-- its code is out of range.
pub mod Scrolling
pub mod Rows
pub mod Drawing
pub mod Reflowing
pub mod Switching
pub mod Editing
pub mod Steps
pub mod Narrow
pub mod Panics
use gozellij.Prelude.{
  same_text, All, All-map, All-set, All-take, All-drop, All-copy, All-append, All-copy_at,
  All-replicate, All-get_or, List-cases, map_get, map_set, map_delete, map_get-map_set,
  map_get-map_delete, ℕ, zero, suc, ◌+◌, ◌-◌, ◌*◌, ◌/◌, ◌%◌, ◌^◌, ◌≤◌, ◌<◌, min, max, ◌≡◌, refl,
  sym, ap, ap₂, subst, ◌∙◌, ◌≡⟨◌⟩◌, ◌∎, ◌≢◌, ◌↔◌, ◌⊎◌, inl, inr, Bool, true, false, not, ◌&&◌, ◌||◌,
  Option, none, some, List, [], ◌∷◌, ◌++◌, map, reverse, append-nil, append_assoc, arith, ltb, leb,
  ◌==◌, if◌then◌else◌, Bool-cases, if_elim, Option-cases, length, get_elem?, get_or, set, take,
  drop, replicate, length-replicate, length-copy, length-copy_at, get_or-drop, get_or-take,
  get_or-append_left, get_or-append_right, get_or-copy_new, get_or-copy_old, get_or-copy_at_before,
  get_or-copy_at_in, get_or-copy_at_behind, get_or_ext, get_or-set_self, get_or-set_ne, length-set,
  mod_cases, mod_step, mod_small, copy, copy_at, slice, keep_last, length-append, length-take,
  length-drop, take-append-drop, ltb→lt, lt→ltb, leb→le, le→leb, lt→leb, le→ltb, ==_iff, ==_ne,
}
use gozellij.Grid.Cell.{Cell, blank_row, length-blank_row}
use gozellij.Grid.Term.{Term, tabs_from, default_tabs, new, at_least_one}

-- A grid of `rows` rows of `cols` cells, with what is kept of each row.
pub record Fits (cols rows : ℕ) (cells : List (List Cell)) (wrapped : List Bool) (used : List ℕ)
    : Type 0 where
  pub rows_len : length cells ≡ rows
  pub row_len : All (λ l. length l ≡ cols) cells
  pub wrapped_len : length wrapped ≡ rows
  pub used_len : length used ≡ rows

-- The live grid has the size of the screen, and the cursor, the scrolling region and the tab stops
-- lie on it. The grid that is put away has that size too, unless a resize is still to be made up
-- for.
pub record WellFormed (t : Term) : Type 0 where
  pub cols_pos : 0 < t.cols
  pub rows_pos : 0 < t.rows
  pub live : Fits t.cols t.rows t.cells t.wrapped t.used
  pub cur_row : t.cur.row < t.rows
  pub cur_col : t.cur.col < t.cols
  pub region : t.top ≤ t.bottom
  pub region_on : t.bottom < t.rows
  pub tabs_len : length t.tabs ≡ t.cols
  pub hidden :
      ((t.on_alt ≡ false) × (t.alt_pending ≡ false))
      ⊎ (((t.on_alt ≡ true)
            × (t.alt_pending ≡ false)
            × Fits t.cols t.rows t.alt t.alt_wrapped t.alt_used)
          ⊎ ((t.on_alt ≡ true) × (t.alt_pending ≡ true)))

length-tabs_from : (c k : ℕ) → length (tabs_from c k) ≡ k
unfolding tabs_from
length-tabs_from c zero = refl
length-tabs_from c (suc k) = ap suc (length-tabs_from (c + 1) k)

pub length-default_tabs : (cols : ℕ) → length (default_tabs cols) ≡ cols
unfolding default_tabs
length-default_tabs cols = length-tabs_from 0 cols

pub blank-Fits :
    (cols rows : ℕ)
    → Fits cols rows (replicate rows (blank_row cols)) (replicate rows false) (replicate rows 0)
blank-Fits cols rows = record {
  rows_len = length-replicate rows (blank_row cols);
  row_len = All-replicate _ rows (blank_row cols) (length-blank_row cols);
  wrapped_len = length-replicate rows false;
  used_len = length-replicate {A = ℕ} rows 0;
}

pub new-WellFormed : (cols rows : ℕ) → WellFormed (new cols rows)
unfolding new
new-WellFormed cols rows = record {
  cols_pos = ground arith;
  rows_pos = ground arith;
  live = blank-Fits (at_least_one cols) (at_least_one rows);
  cur_row = ground arith;
  cur_col = ground arith;
  region = omega arith;
  region_on = ground arith;
  tabs_len = length-default_tabs (at_least_one cols);
  hidden = inl (refl, refl);
}
