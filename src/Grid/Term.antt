-- ===== src/Grid/Term.antt =====
-- internal/vt/grid/grid.go and charset.go: the state of a terminal and its simple settings.
--
-- Rows and columns of a state are natural numbers. The escape-sequence parser of parser.go is not
-- part of this record. A map is an association list; a text is its list of code points.
use gozellij.Prelude.{
  same_text, map_set, ℕ, zero, suc, ◌+◌, ◌-◌, ◌%◌, Bool, true, false, ◌&&◌, ◌||◌, Option, none,
  some, List, [], ◌∷◌, ◌++◌, map, ltb, leb, ◌==◌, if◌then◌else◌, length, get_or, set, take, drop,
  replicate,
}
use gozellij.Grid.Cell.{Cell, Cursor, blank_row, space, Style, hidden_cursor, no_style}
use gozellij.Grid.History.{HistRing, set_limit, no_history}

pub data Charset : Type 0 where
  charset_ascii charset_graphics : Charset

pub record Term : Type 0 where
  pub cols : ℕ
  pub rows : ℕ
  pub cells : List (List Cell)
  pub wrapped : List Bool
  pub used : List ℕ
  pub cur : Cursor
  pub saved : Cursor
  pub saved_style : Style
  pub style : Style
  pub pend : Bool
  pub top : ℕ
  pub bottom : ℕ
  pub alt : List (List Cell)
  pub alt_wrapped : List Bool
  pub alt_used : List ℕ
  pub alt_saved : Cursor
  pub on_alt : Bool
  pub alt_pending : Bool
  pub modes : List (ℕ × Bool)
  pub dir : List ℕ
  pub title : List ℕ
  pub titles : List (List ℕ)
  pub irm : Bool
  pub awm : Bool
  pub keypad : Bool
  pub colour_asks : List ℕ
  pub replies : List ℕ
  pub unknown : List (List ℕ × ℕ)
  pub g0 : Charset
  pub g1 : Charset
  pub active : ℕ
  pub tabs : List Bool
  pub hist : HistRing

abbrev pub default_scrollback : ℕ
default_scrollback = 2000

-- The stops from column `c` on, for `k` columns.
unfoldable pub tabs_from : ℕ → ℕ → List Bool
tabs_from c zero = []
tabs_from c (suc k) = (ltb 0 c && (c % 8 == 0)) ∷ tabs_from (c + 1) k

-- `defaultTabs`: every eighth column but the first.
unfoldable pub default_tabs : ℕ → List Bool
default_tabs cols = tabs_from 0 cols

abbrev pub at_least_one : ℕ → ℕ
at_least_one n = if ltb n 1 then 1 else n

-- `New`, for sizes that are not negative.
unfoldable pub new : ℕ → ℕ → Term
new c r =
    let cols = at_least_one c in
    let rows = at_least_one r in
    record {
      cols = cols;
      rows = rows;
      cells = replicate rows (blank_row cols);
      wrapped = replicate rows false;
      used = replicate rows 0;
      cur = record hidden_cursor { visible = true };
      saved = hidden_cursor;
      saved_style = no_style;
      style = no_style;
      pend = false;
      top = 0;
      bottom = rows - 1;
      alt = [];
      alt_wrapped = [];
      alt_used = [];
      alt_saved = hidden_cursor;
      on_alt = false;
      alt_pending = false;
      modes = [];
      dir = [];
      title = [];
      titles = [];
      irm = false;
      awm = true;
      keypad = false;
      colour_asks = [];
      replies = [];
      unknown = [];
      g0 = charset_ascii;
      g1 = charset_ascii;
      active = 0;
      tabs = default_tabs cols;
      hist = set_limit no_history default_scrollback;
    }

-- `setTab` and `clearTabs`; a column past the stops is left alone.
unfoldable pub set_tab : Term → Term
set_tab t = record t { tabs = set t.tabs t.cur.col true }

unfoldable pub clear_tabs : Term → Bool → Term
clear_tabs t all =
    if all
    then record t { tabs = map (λ _. false) t.tabs }
    else record t { tabs = set t.tabs t.cur.col false }

-- The loop of `nextTab`, over `k` columns from `c` on.
unfoldable pub find_tab : List Bool → ℕ → ℕ → ℕ → ℕ
find_tab tabs last c zero = last
find_tab tabs last c (suc k) =
    let later = find_tab tabs last (c + 1) k in if get_or tabs c false then c else later

unfoldable pub next_tab : Term → ℕ
next_tab t = find_tab t.tabs (t.cols - 1) (t.cur.col + 1) (t.cols - (t.cur.col + 1))

-- `Cell`: out of range is an answer.
unfoldable pub cell_at : Term → ℕ → ℕ → Option Cell
cell_at t row col =
    if leb t.rows row || leb t.cols col
    then none
    else some (get_or (get_or t.cells row []) col space)

unfoldable pub cursor : Term → Cursor
cursor t = record (t.cur) { pending = t.pend }

unfoldable pub select_charset : Term → ℕ → ℕ → Term
select_charset t slot code =
    let chosen = if code == b'0' then charset_graphics else charset_ascii in
    if slot == 0 then record t { g0 = chosen } else record t { g1 = chosen }

unfoldable pub shift_to : Term → ℕ → Term
shift_to t slot = record t { active = slot }

abbrev pub title_stack_limit : ℕ
title_stack_limit = 10

-- `pushTitle` and `popTitle`; the last of `titles` is the newest.
unfoldable pub push_title : Term → Term
push_title t =
    let kept = if leb title_stack_limit (length t.titles) then drop 1 t.titles else t.titles in
    record t { titles = kept ++ t.title ∷ [] }

unfoldable pub pop_title : Term → Term
pop_title t =
    let n = length t.titles in
    if n == 0
    then t
    else record t { title = get_or t.titles (n - 1) []; titles = take (n - 1) t.titles }

unfoldable pub take_colour_asks : Term → Term × List ℕ
take_colour_asks t = (record t { colour_asks = [] }, t.colour_asks)

unfoldable pub take_replies : Term → Term × List ℕ
take_replies t = (record t { replies = [] }, t.replies)

unfoldable pub set_mode : Term → ℕ → Bool → Term
set_mode t n on = record t { modes = map_set t.modes n on }

unfoldable pub set_scrollback : Term → ℕ → Term
set_scrollback t n = record t { hist = set_limit t.hist n }

abbrev pub unknown_limit : ℕ
unknown_limit = 50

-- Whether a name was counted, and one more for a name that was.
unfoldable pub seen : List (List ℕ × ℕ) → List ℕ → Bool
seen [] name = false
seen ((k, n) ∷ m) name = same_text k name || seen m name

unfoldable pub count_again : List (List ℕ × ℕ) → List ℕ → List (List ℕ × ℕ)
count_again [] name = []
count_again ((k, n) ∷ m) name =
    (if same_text k name then (k, n + 1) else (k, n)) ∷ count_again m name

unfoldable pub note_unknown : Term → List ℕ → Term
note_unknown t name =
    if seen t.unknown name
    then record t { unknown = count_again t.unknown name }
    else if leb unknown_limit (length t.unknown)
    then t
    else record t { unknown = t.unknown ++ (name, 1) ∷ [] }
