-- ===== src/Grid/Paragraphs.antt =====
-- internal/vt/grid/reflow.go: the scrollback and the screen as paragraphs.
--
-- A position that may be -1, "elsewhere", is an `Option`.
use gozellij.Prelude.{
  ℕ, zero, suc, ◌+◌, ◌-◌, min, max, Bool, true, false, ◌||◌, Option, none, some, List, [], ◌∷◌,
  ◌++◌, ltb, ◌==◌, if◌then◌else◌, length, get_or, take,
}
use gozellij.Grid.Cell.{Cell}
use gozellij.Grid.History.{HistLine, scrollback}
use gozellij.Grid.Term.{Term}

pub record Logical : Type 0 where
  pub cells : List Cell
  pub cursor : Option ℕ

abbrev pub no_logical : Logical
no_logical = record { cells = []; cursor = none }

-- `usedAt` and `wrappedAt`: 0 and false past the end.
abbrev pub used_at : Term → ℕ → ℕ
used_at t r = get_or t.used r 0

abbrev pub wrapped_at : Term → ℕ → Bool
wrapped_at t r = get_or t.wrapped r false

-- The variables of `logicalLines`.
pub record Joining : Type 0 where
  pub lines : List Logical
  pub cur : Logical
  pub unfinished : Bool

unfoldable pub add_row : Joining → List Cell → ℕ → Bool → Option ℕ → Joining
add_row j cells used wrapped cursor_col =
    let cur : Logical = record {
      cells = j.cur.cells ++ take (min used (length cells)) cells;
      cursor = elim cursor_col [ none ↦ j.cur.cursor | some c ↦ some (length j.cur.cells + c) ];
    } in
    if wrapped
    then record { lines = j.lines; cur = cur; unfinished = true }
    else record { lines = j.lines ++ cur ∷ []; cur = no_logical; unfinished = false }

unfoldable pub add_history : Joining → List HistLine → Joining
add_history j [] = j
add_history j (h ∷ hs) = add_history (add_row j h.cells h.used h.wrapped none) hs

-- The last row below `low` that has text, down from row `r`.
unfoldable pub last_used : Term → ℕ → ℕ → ℕ
last_used t low zero = low
last_used t low (suc r) =
    let below = last_used t low r in
    if ltb low (suc r) then (if ltb 0 (used_at t (suc r)) then suc r else below) else low

-- The rows from `r` on, `k` of them.
unfoldable pub add_rows : Term → Joining → ℕ → ℕ → Joining
add_rows t j r zero = j
add_rows t j r (suc k) =
    let here = r == t.cur.row in
    let used = if here then max (used_at t r) t.cur.col else used_at t r in
    add_rows t
      (add_row j (get_or t.cells r []) used (wrapped_at t r)
        (if here then some t.cur.col else none))
      (r + 1) k

abbrev pub is_some : Option ℕ → Bool
is_some none = false
is_some (some n) = true

unfoldable pub finish_lines : Joining → List Logical
finish_lines j = if j.unfinished || is_some j.cur.cursor then j.lines ++ j.cur ∷ [] else j.lines

unfoldable pub logical_lines : Term → List Logical
logical_lines t =
    let have = length t.cells in
    let last = last_used t (min t.cur.row (have - 1)) (have - 1) in
    let past =
      add_history (record { lines = []; cur = no_logical; unfinished = false })
        (scrollback t.hist) in
    finish_lines (add_rows t past 0 (last + 1))
