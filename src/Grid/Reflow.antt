-- ===== src/Grid/Reflow.antt =====
-- internal/vt/grid/reflow.go: the screen and its scrollback laid out at a new width.
--
-- Where a paragraph is `faulted`, the reflow is `none`.
use gozellij.Prelude.{
  ℕ, zero, suc, ◌+◌, ◌-◌, min, max, Bool, true, false, ◌||◌, Option, none, some, List, [], ◌∷◌,
  ◌++◌, ltb, if◌then◌else◌, length, get_or, take, copy,
}
use gozellij.Grid.Cell.{Cell, blank_row}
use gozellij.Grid.Term.{Term, default_tabs}
use gozellij.Grid.History.{HistRing, push, reset}
use gozellij.Grid.Move.{clamp}
use gozellij.Grid.Paragraphs.{Logical, logical_lines}
use gozellij.Grid.Wrap.{wrap_cells}

-- The variables of the loop of `reflowTo`.
pub record Laid : Type 0 where
  pub out : List (List Cell)
  pub out_used : List ℕ
  pub out_wrap : List Bool
  pub cur : Option (ℕ × ℕ)
  pub faulted : Bool

-- Every row of a paragraph continues onto the next, except the last.
unfoldable pub continues : ℕ → List Bool
continues zero = []
continues (suc zero) = false ∷ []
continues (suc (suc n)) = true ∷ continues (suc n)

unfoldable pub lay_line : ℕ → Laid → Logical → Laid
lay_line cols a l =
    let w = wrap_cells l.cells cols l.cursor in
    record {
      out = a.out ++ w.rows;
      out_used = a.out_used ++ w.used;
      out_wrap = a.out_wrap ++ continues (length w.rows);
      cur = elim w.cursor_at [ none ↦ a.cur | some (r, c) ↦ some (length a.out + r, c) ];
      faulted = a.faulted || w.faulted;
    }

unfoldable pub lay_lines : ℕ → Laid → List Logical → Laid
lay_lines cols a [] = a
lay_lines cols a (l ∷ ls) = lay_lines cols (lay_line cols a l) ls

unfoldable pub fit_row : List Cell → ℕ → List Cell
fit_row row cols = copy (blank_row cols) (take (min cols (length row)) row)

-- The rows of the screen from `src` on, `k` of them; past the end they are blank.
unfoldable pub screen_cells : Laid → ℕ → ℕ → ℕ → List (List Cell)
screen_cells a cols src zero = []
screen_cells a cols src (suc k) =
    (if ltb src (length a.out) then fit_row (get_or a.out src []) cols else blank_row cols)
    ∷ screen_cells a cols (src + 1) k

unfoldable pub screen_wrapped : Laid → ℕ → ℕ → List Bool
screen_wrapped a src zero = []
screen_wrapped a src (suc k) = get_or a.out_wrap src false ∷ screen_wrapped a (src + 1) k

unfoldable pub screen_used : Laid → ℕ → ℕ → ℕ → List ℕ
screen_used a cols src zero = []
screen_used a cols src (suc k) = min (get_or a.out_used src 0) cols ∷ screen_used a cols (src + 1) k

-- Everything above the screen, `k` rows from `i` on, is scrollback again.
unfoldable pub push_rows : Laid → ℕ → ℕ → ℕ → HistRing → HistRing
push_rows a cols i zero h = h
push_rows a cols i (suc k) h = push_rows a cols (i + 1) k (
    push h (record {
      cells = fit_row (get_or a.out i []) cols;
      wrapped = get_or a.out_wrap i false;
      used = min (get_or a.out_used i 0) cols;
    }))

unfoldable pub lay_screen : Term → ℕ → ℕ → Laid → ℕ × ℕ → Term
lay_screen t cols rows a (cur_row, cur_col) =
    let start = max (cur_row + 1 - rows) (length a.out - rows) in
    record t {
      cols = cols;
      rows = rows;
      tabs = default_tabs cols;
      cells = screen_cells a cols start rows;
      wrapped = screen_wrapped a start rows;
      used = screen_used a cols start rows;
      hist = push_rows a cols 0 (min start (length a.out)) (reset t.hist);
      cur = record (t.cur) {
        row = clamp (cur_row - start) 0 (rows - 1);
        col = clamp cur_col 0 (cols - 1);
      };
      pend = false;
      top = 0;
      bottom = rows - 1;
    }

unfoldable pub no_rows : Laid
no_rows = record { out = []; out_used = []; out_wrap = []; cur = none; faulted = false }

-- Where the cursor landed; without one, just past the end.
abbrev pub cursor_place : Option (ℕ × ℕ) → ℕ → ℕ × ℕ
cursor_place none n = (n, 0)
cursor_place (some p) n = p

unfoldable pub reflow_to : Term → ℕ → ℕ → Option Term
reflow_to t cols rows =
    let a = lay_lines cols no_rows (logical_lines t) in
    if a.faulted then none else some (lay_screen t cols rows a (cursor_place a.cur (length a.out)))
