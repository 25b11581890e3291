-- ===== src/Grid/Ops.antt =====
-- internal/vt/grid: operations that the parser and a resize perform on a terminal, one after the other.
--
-- What is left out are the settings that touch neither the grid nor the cursor.
use gozellij.Prelude.{ℕ, Bool, Option, none, some, List, [], ◌∷◌}
use gozellij.Grid.Term.{Term, new, set_tab, next_tab, clear_tabs, set_scrollback}
use gozellij.Grid.Draw.{put, erase_in_row, shift_right}
use gozellij.Grid.Scroll.{wrap_line, line_feed, at_col, scroll_up, scroll_down}
use gozellij.Grid.Move.{
  move_up, move_down, move_to, restore_cursor, save_cursor, eff_col, save_1048, restore_1048,
}
use gozellij.Grid.Resize.{enter_alt, leave_alt, resize}
use gozellij.Parser.Numbers.{Param}
use gozellij.Parser.Lines.{insert_lines, delete_lines, insert_chars, delete_chars}
use gozellij.Parser.Csi.{set_scroll_region}
use gozellij.Parser.Escape.{reverse_index}
use gozellij.Parser.Control.{backspace, settled}

pub data Op : Type 0 where
  puts : ℕ → ℕ → Op
  wraps line_feeds saves restores sets_tab tabulates : Op
  clears_tabs : Bool → Op
  scrolls_up scrolls_down moves_up moves_down : ℕ → Op
  moves_to : ℕ → ℕ → Op
  erases : ℕ → ℕ → ℕ → Op
  shifts_right : ℕ → Op
  sets_scrollback : ℕ → Op
  enters_alt leaves_alt : Bool → Op
  resizes : ℕ → ℕ → Op
  saves_1048 restores_1048 returns backs reverses resets : Op
  sets_region : List Param → Op
  inserts_lines deletes_lines inserts_chars deletes_chars : ℕ → Op

-- `none` is a panic.
unfoldable pub step : Term → Op → Option Term
step t (puts rune width) = put t rune width
step t wraps = some (wrap_line t)
step t line_feeds = some (line_feed t)
step t saves = some (save_cursor t)
step t restores = some (restore_cursor t)
step t sets_tab = some (set_tab t)
step t tabulates = some (at_col t (next_tab t))
step t (clears_tabs all) = some (clear_tabs t all)
step t (scrolls_up n) = some (scroll_up n t)
step t (scrolls_down n) = some (scroll_down n t)
step t (moves_up n) = some (move_up t n)
step t (moves_down n) = some (move_down t n)
step t (moves_to row col) = some (move_to t row col)
step t (erases row from to) = some (erase_in_row t row from to)
step t (shifts_right n) = some (shift_right t t.cur.row (eff_col t) n)
step t (sets_scrollback n) = some (set_scrollback t n)
step t (enters_alt save) = some (enter_alt t save)
step t (leaves_alt restore) = leave_alt t restore
step t (resizes cols rows) = resize t cols rows
step t saves_1048 = some (save_1048 t)
step t restores_1048 = some (restore_1048 t)
step t returns = some (settled (at_col t 0))
step t backs = some (backspace t)
step t reverses = some (reverse_index t)
step t resets = some (new t.cols t.rows)
step t (sets_region ps) = some (set_scroll_region t ps)
step t (inserts_lines n) = some (insert_lines t n)
step t (deletes_lines n) = some (delete_lines t n)
step t (inserts_chars n) = insert_chars t n
step t (deletes_chars n) = delete_chars t n

unfoldable pub run : Term → List Op → Option Term
run t [] = some t
run t (op ∷ ops) = elim (step t op) [ none ↦ none | some u ↦ run u ops ]
