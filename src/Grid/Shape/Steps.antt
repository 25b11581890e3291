-- ===== src/Grid/Shape/Steps.antt =====
-- internal/vt/grid: no operation takes the cursor or the grid out of shape.
use gozellij.Prelude.{
  ℕ, zero, suc, ◌+◌, ◌-◌, ◌≤◌, ◌<◌, ◌≡◌, sym, subst, ◌∙◌, ◌≢◌, inl, inr, Bool, true, false, Option,
  none, some, List, [], ◌∷◌, map, arith, ◌==◌, Bool-cases, if_elim, length, get_or, set, length-set,
  length-map,
}
use gozellij.Grid.Term.{Term, clear_tabs, find_tab, next_tab, set_tab, set_scrollback}
use gozellij.Grid.Shape.{WellFormed, new-WellFormed}
use gozellij.Grid.Shape.Editing.{
  Edited, insert_chars-WellFormed, delete_chars-WellFormed, insert_lines-WellFormed,
  delete_lines-WellFormed, set_scroll_region-WellFormed, reverse_index-WellFormed,
  backspace-WellFormed, save_1048-WellFormed,
}
use gozellij.Grid.History.{set_limit}
use gozellij.Grid.Ops.{
  Op, step, puts, wraps, line_feeds, saves, restores, sets_tab, tabulates, clears_tabs, scrolls_up,
  scrolls_down, moves_up, moves_down, moves_to, erases, shifts_right, sets_scrollback, enters_alt,
  leaves_alt, resizes, saves_1048, restores_1048, returns, backs, reverses, resets, sets_region,
  inserts_lines, deletes_lines, inserts_chars, deletes_chars,
}
use gozellij.Grid.Move.{
  restore_cursor, move_up, move_down, move_to, clamp, save_cursor, eff_col, restore_1048,
}
use gozellij.Grid.Draw.{put, combine}
use gozellij.Grid.Shape.Scrolling.{
  moved-WellFormed, wrap_line-WellFormed, line_feed-WellFormed, scroll_up-WellFormed,
  scroll_down-WellFormed, regrid-WellFormed,
}
use gozellij.Grid.Shape.Drawing.{put_string_lem}
use gozellij.Grid.Shape.Rows.{combine-WellFormed, erase_in_row-WellFormed, shift_right-WellFormed}
use gozellij.Grid.History.{set_limit}
use gozellij.Grid.Shape.Switching.{enter_alt-WellFormed, leave_alt-WellFormed, resize-WellFormed}

pub restore_cursor-WellFormed : (t : Term) → WellFormed t → WellFormed (restore_cursor t)
unfolding restore_cursor clamp
restore_cursor-WellFormed t v = record {
  cols_pos = v.cols_pos;
  rows_pos = v.rows_pos;
  live = v.live;
  cur_row = omega (arith, v.rows_pos);
  cur_col = omega (arith, v.cols_pos);
  region = v.region;
  region_on = v.region_on;
  tabs_len = v.tabs_len;
  hidden = v.hidden;
}

pub tabs-WellFormed :
    (t : Term) (tabs : List Bool)
    → length tabs ≡ t.cols
    → WellFormed t
    → WellFormed (record t { tabs = tabs })
tabs-WellFormed t tabs e v = record {
  cols_pos = v.cols_pos;
  rows_pos = v.rows_pos;
  live = v.live;
  cur_row = v.cur_row;
  cur_col = v.cur_col;
  region = v.region;
  region_on = v.region_on;
  tabs_len = e;
  hidden = v.hidden;
}

pub clear_tabs-WellFormed : (t : Term) (all : Bool) → WellFormed t → WellFormed (clear_tabs t all)
unfolding clear_tabs
clear_tabs-WellFormed t true v =
    tabs-WellFormed t (map (λ _. false) t.tabs) (length-map t.tabs (λ _. false) ∙ v.tabs_len) v
clear_tabs-WellFormed t false v =
    tabs-WellFormed t (set t.tabs t.cur.col false) (length-set t.tabs t.cur.col false ∙ v.tabs_len)
      v

find_tab-lt :
    (tabs : List Bool) (last c k n : ℕ) → last < n → c + k ≤ n → find_tab tabs last c k < n
unfolding find_tab
find_tab-lt tabs last c zero n h l = h
find_tab-lt tabs last c (suc k) n h l =
    if_elim (λ x. x < n) (get_or tabs c false) c (find_tab tabs last (c + 1) k) (λ _. omega arith)
      (λ _. find_tab-lt tabs last (c + 1) k n h (omega arith))

pub next_tab-lt : (t : Term) → WellFormed t → next_tab t < t.cols
unfolding next_tab
next_tab-lt t v =
    find_tab-lt t.tabs (t.cols - 1) (t.cur.col + 1) (t.cols - (t.cur.col + 1)) t.cols
      (omega (arith, v.cols_pos)) (omega (arith, v.cur_col))

pub move_up-WellFormed : (t : Term) (n : ℕ) → WellFormed t → WellFormed (move_up t n)
unfolding move_up clamp
move_up-WellFormed t n v = moved-WellFormed t _ false (ground arith) v.cur_col v

pub move_down-WellFormed : (t : Term) (n : ℕ) → WellFormed t → WellFormed (move_down t n)
unfolding move_down clamp
move_down-WellFormed t n v = moved-WellFormed t _ false (ground arith) v.cur_col v

pub move_to-WellFormed : (t : Term) (row col : ℕ) → WellFormed t → WellFormed (move_to t row col)
unfolding move_to clamp
move_to-WellFormed t row col v =
    moved-WellFormed t _ false (omega (arith, v.rows_pos)) (omega (arith, v.cols_pos)) v

pub put-WellFormed :
    (t u : Term) (rune width : ℕ) → WellFormed t → put t rune width ≡ some u → WellFormed u
unfolding put
put-WellFormed t u rune width v e = elim (Bool-cases (width == 0)) [
  | inl zero_width ↦
      subst WellFormed {x = combine t rune} (ground arith) (combine-WellFormed t rune v)
  | inr some_width ↦ elim (put_string_lem t (rune ∷ []) width v) [
    | inl (_, w, drawn, good) ↦ subst WellFormed {x = w} (ground arith) good
    | inr (_, panic) ↦ ground arith
  ]
]

same_some : {t u : Term} → some t ≡ some u → WellFormed t → WellFormed u
same_some {t} e v = subst WellFormed {x = t} (cc) v

-- What mode 1048 brings back is on the screen.
abbrev pub BringsBack : Term → Op → Type 0
BringsBack t restores_1048 = (t.alt_saved.row < t.rows) × (t.alt_saved.col < t.cols)
BringsBack t op = Unit

edited : (t u : Term) (n : ℕ) (o : Option Term) → Edited t n o → o ≡ some u → WellFormed u
edited t u n o (inl (w, e, v)) f = same_some (sym e ∙ f) v
edited t u n o (inr (e, over)) f = absurd (nothing (sym e ∙ f))
  where
    nothing : {u : Term} → none ≢ some u
    nothing h = ground arith

pub step-WellFormed :
    (t u : Term) (op : Op) → WellFormed t → BringsBack t op → step t op ≡ some u → WellFormed u
unfolding step
step-WellFormed t u (puts rune width) v b e = put-WellFormed t u rune width v e
step-WellFormed t u wraps v b e = same_some e (wrap_line-WellFormed t v)
step-WellFormed t u line_feeds v b e = same_some e (line_feed-WellFormed t v)
step-WellFormed t u saves v b e = same_some e (
    unfold save_cursor in
    record {
      cols_pos = v.cols_pos;
      rows_pos = v.rows_pos;
      live = v.live;
      cur_row = v.cur_row;
      cur_col = v.cur_col;
      region = v.region;
      region_on = v.region_on;
      tabs_len = v.tabs_len;
      hidden = v.hidden;
    })
step-WellFormed t u restores v b e = same_some e (restore_cursor-WellFormed t v)
step-WellFormed t u sets_tab v b e = same_some e (
    unfold set_tab in
    tabs-WellFormed t (set t.tabs t.cur.col true) (length-set t.tabs t.cur.col true ∙ v.tabs_len) v)
step-WellFormed t u tabulates v b e =
    same_some e (moved-WellFormed t _ t.pend v.cur_row (next_tab-lt t v) v)
step-WellFormed t u (clears_tabs all) v b e = same_some e (clear_tabs-WellFormed t all v)
step-WellFormed t u (scrolls_up n) v b e = same_some e (scroll_up-WellFormed n t v)
step-WellFormed t u (scrolls_down n) v b e = same_some e (scroll_down-WellFormed n t v)
step-WellFormed t u (moves_up n) v b e = same_some e (move_up-WellFormed t n v)
step-WellFormed t u (moves_down n) v b e = same_some e (move_down-WellFormed t n v)
step-WellFormed t u (moves_to row col) v b e = same_some e (move_to-WellFormed t row col v)
step-WellFormed t u (erases row from to) v b e =
    same_some e (erase_in_row-WellFormed t row from to v)
step-WellFormed t u (shifts_right n) v b e =
    same_some e (shift_right-WellFormed t t.cur.row (eff_col t) n v.cur_row v)
step-WellFormed t u (sets_scrollback n) v b e = same_some e (
    unfold set_scrollback in
    regrid-WellFormed t t.cells t.wrapped t.used (set_limit t.hist n) v.live v)
step-WellFormed t u (enters_alt save) v b e = same_some e (enter_alt-WellFormed t save v)
step-WellFormed t u (leaves_alt restore) v b e = leave_alt-WellFormed t u restore v e
step-WellFormed t u (resizes cols rows) v b e = resize-WellFormed t u cols rows v e
step-WellFormed t u saves_1048 v b e = same_some e (save_1048-WellFormed t v)
step-WellFormed t u restores_1048 v b e =
    same_some e (unfold restore_1048 in moved-WellFormed t t.alt_saved false b.0 b.1 v)
step-WellFormed t u returns v b e =
    same_some e (moved-WellFormed t (record (t.cur) { col = 0 }) false v.cur_row v.cols_pos v)
step-WellFormed t u backs v b e = same_some e (backspace-WellFormed t v)
step-WellFormed t u reverses v b e = same_some e (reverse_index-WellFormed t v)
step-WellFormed t u resets v b e = same_some e (new-WellFormed t.cols t.rows)
step-WellFormed t u (sets_region ps) v b e = same_some e (set_scroll_region-WellFormed t ps v)
step-WellFormed t u (inserts_lines n) v b e = same_some e (insert_lines-WellFormed t n v)
step-WellFormed t u (deletes_lines n) v b e = same_some e (delete_lines-WellFormed t n v)
step-WellFormed t u (inserts_chars n) v b e = edited t u n _ (insert_chars-WellFormed t n v) e
step-WellFormed t u (deletes_chars n) v b e = edited t u n _ (delete_chars-WellFormed t n v) e
