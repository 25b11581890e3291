-- ===== src/Grid/Scroll.antt =====
-- internal/vt/grid/grid.go: wrapping, line feeds and scrolling.
--
-- `Shape.WellFormed` keeps every row and column here in range.
use gozellij.Prelude.{
  ℕ, zero, suc, ◌+◌, ◌-◌, Bool, true, false, List, [], ltb, ◌==◌, if◌then◌else◌, length, get_or,
  set, copy_at, slice,
}
use gozellij.Grid.Cell.{Cell, blank_row}
use gozellij.Grid.Term.{Term}
use gozellij.Grid.History.{push}

module _ {ℓ} {A : Type ℓ} where
  -- `copy(xs[top:bottom], xs[top+1:bottom+1])` and the write to `xs[bottom]`.
  unfoldable pub shift_up : List A → ℕ → ℕ → A → List A
  shift_up xs top bottom new = set (copy_at xs top (slice xs (top + 1) (bottom + 1))) bottom new

  -- `copy(xs[top+1:bottom+1], xs[top:bottom])` and the write to `xs[top]`.
  unfoldable pub shift_down : List A → ℕ → ℕ → A → List A
  shift_down xs top bottom new = set (copy_at xs (top + 1) (slice xs top bottom)) top new

-- What scrolls off a program's own screen is not history.
unfoldable pub remember : Term → List Cell → Bool → ℕ → Term
remember t line wrapped used =
    if t.on_alt
    then t
    else record t { hist = push t.hist (record { cells = line; wrapped = wrapped; used = used }) }

-- One round of `scrollUp`: the row that leaves comes back blank, in its old width.
unfoldable pub scroll_up_one : Term → Term
scroll_up_one t =
    let recycled = get_or t.cells t.top [] in
    let t' = remember t recycled (get_or t.wrapped t.top false) (get_or t.used t.top 0) in
    record t' {
      cells = shift_up t.cells t.top t.bottom (blank_row (length recycled));
      wrapped = shift_up t.wrapped t.top t.bottom false;
      used = shift_up t.used t.top t.bottom 0;
    }

unfoldable pub scroll_up : ℕ → Term → Term
scroll_up zero t = t
scroll_up (suc n) t = scroll_up n (scroll_up_one t)

unfoldable pub scroll_down_one : Term → Term
scroll_down_one t = record t {
  cells = shift_down t.cells t.top t.bottom (blank_row t.cols);
  wrapped = shift_down t.wrapped t.top t.bottom false;
  used = shift_down t.used t.top t.bottom 0;
}

unfoldable pub scroll_down : ℕ → Term → Term
scroll_down zero t = t
scroll_down (suc n) t = scroll_down n (scroll_down_one t)

abbrev pub at_row : Term → ℕ → Term
at_row t row = record t { cur = record (t.cur) { row = row } }

abbrev pub at_col : Term → ℕ → Term
at_col t col = record t { cur = record (t.cur) { col = col } }

unfoldable pub line_feed : Term → Term
line_feed t =
    if t.cur.row == t.bottom
    then scroll_up 1 t
    else if ltb t.cur.row (t.rows - 1)
    then at_row t (t.cur.row + 1)
    else t

-- `wrap`: the row ran into the margin.
unfoldable pub wrap_line : Term → Term
wrap_line t =
    line_feed (at_col (record t { wrapped = set t.wrapped t.cur.row true; pend = false }) 0)
