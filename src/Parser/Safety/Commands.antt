-- ===== src/Parser/Safety/Commands.antt =====
-- internal/vt/grid/parser.go: no control sequence but two takes the terminal out of range.
use gozellij.Prelude.{
  same_text, ℕ, zero, ◌-◌, refl, Bool, ◌||◌, none, some, List, [], ◌∷◌, ◌++◌, arith, leb, ◌==◌,
  if_elim, length, get_or, take,
}
use gozellij.Grid.Term.{
  Term, note_unknown, clear_tabs, seen, push_title, count_again, pop_title, unknown_limit,
}
use gozellij.Parser.Safety.{Ready, Kept, Kept-Ready, dressed-Ready, moved-Ready}
use gozellij.Parser.Csi.{
  Command, set_scroll_region, set_ansi_modes, window_command, status_report, device_attributes,
  set_shape, perform_plain,
}
use gozellij.Parser.Csi
use gozellij.Grid.Move.{restore_cursor, save_cursor, move_up, move_down, move_to}
use gozellij.Grid.Scroll.{at_col}
use gozellij.Parser.Strings.{answer}
use gozellij.Parser.Sgr.{sgr, sgr_from}
use gozellij.Grid.Shape.Steps.{
  restore_cursor-WellFormed, move_down-WellFormed, clear_tabs-WellFormed, move_up-WellFormed,
  move_to-WellFormed,
}
use gozellij.Parser.Numbers.{Param, arg}
use gozellij.Parser.State.{Parser}
use gozellij.Grid.Cell.{no_style}
use gozellij.Parser.Safety.Editing.{
  erase_in_display-Ready, region-Ready, erase_in_line-Ready, insert_lines-Ready, delete_lines-Ready,
  erase_chars-Ready,
}
use gozellij.Parser.Safety.Drawing.{scroll_up-Ready, scroll_down-Ready}

pub note_unknown-Ready : (t : Term) (name : List ℕ) → Ready t → Ready (note_unknown t name)
unfolding note_unknown
note_unknown-Ready t name r =
    if_elim Ready (seen t.unknown name) _ _
      (λ _. dressed-Ready t (record t { unknown = count_again t.unknown name }) r)
      (λ _.
        if_elim Ready (leb unknown_limit (length t.unknown)) t _ (λ _. r)
          (λ _. dressed-Ready t (record t { unknown = t.unknown ++ (name, 1) ∷ [] }) r))

pub restore_cursor-Ready : (t : Term) → Ready t → Ready (restore_cursor t)
restore_cursor-Ready t r =
    Kept-Ready (restore_cursor t) r (restore_cursor-WellFormed t r.shape)
      (unfold restore_cursor in (refl, refl, refl, refl))

pub save_cursor-Ready : (t : Term) → Ready t → Ready (save_cursor t)
unfolding save_cursor
save_cursor-Ready t r = dressed-Ready t (save_cursor t) r

move_up-Ready : (t : Term) (n : ℕ) → Ready t → Ready (move_up t n)
move_up-Ready t n r =
    Kept-Ready (move_up t n) r (move_up-WellFormed t n r.shape)
      (unfold move_up in (refl, refl, refl, refl))

move_down-Ready : (t : Term) (n : ℕ) → Ready t → Ready (move_down t n)
move_down-Ready t n r =
    Kept-Ready (move_down t n) r (move_down-WellFormed t n r.shape)
      (unfold move_down in (refl, refl, refl, refl))

move_to-Ready : (t : Term) (row col : ℕ) → Ready t → Ready (move_to t row col)
move_to-Ready t row col r =
    Kept-Ready (move_to t row col) r (move_to-WellFormed t row col r.shape)
      (unfold move_to in (refl, refl, refl, refl))

pub to_first_column : (t : Term) → Ready t → Ready (at_col t 0)
to_first_column t r =
    moved-Ready t (record (t.cur) { col = 0 }) t.pend r.shape.cur_row r.shape.cols_pos r

clear_tabs-Ready : (t : Term) (all : Bool) → Ready t → Ready (clear_tabs t all)
clear_tabs-Ready t all r = Kept-Ready (clear_tabs t all) r (clear_tabs-WellFormed t all r.shape) (
    unfold clear_tabs in
    if_elim (Kept t) all _ _ (λ _. (refl, refl, refl, refl)) (λ _. (refl, refl, refl, refl)))

set_scroll_region-Ready : (t : Term) (ps : List Param) → Ready t → Ready (set_scroll_region t ps)
unfolding set_scroll_region
set_scroll_region-Ready t ps r =
    if_elim Ready (Csi.is_zero ps 0 || Csi.is_zero ps 1) t _ (λ _. r)
      (λ _.
        if_elim Ready (leb t.rows bottom || leb bottom top) t _ (λ _. r)
          (λ h. move_to-Ready _ 0 0 (region-Ready t top bottom (ground arith) (ground arith) r)))
  where
    top : ℕ
    top = arg ps 0 1 - 1

    bottom : ℕ
    bottom = arg ps 1 t.rows - 1

set_ansi_modes-Ready :
    (ps : List Param) (t : Term) (final : ℕ) → Ready t → Ready (set_ansi_modes t final ps)
unfolding set_ansi_modes
set_ansi_modes-Ready [] t final r = r
set_ansi_modes-Ready (none ∷ ps) t final r =
    set_ansi_modes-Ready ps _ final (note_unknown-Ready t _ r)
set_ansi_modes-Ready (some k ∷ ps) t final r = set_ansi_modes-Ready ps _ final (
    if_elim Ready (k == 4) _ _ (λ _. dressed-Ready t (record t { irm = final == b'h' }) r)
      (λ _. note_unknown-Ready t _ r))

window_command-Ready : (t : Term) (n : ℕ) → Ready t → Ready (window_command t n)
unfolding window_command push_title pop_title
window_command-Ready t n r =
    if_elim Ready (n == 22) _ _ (λ _. dressed-Ready t (push_title t) r)
      (λ _.
        if_elim Ready (n == 23) _ _
          (λ _.
            if_elim Ready (length t.titles == 0) t _ (λ _. r)
              (λ _.
                dressed-Ready t
                  (record t {
                    title = get_or t.titles (length t.titles - 1) [];
                    titles = take (length t.titles - 1) t.titles;
                  })
                  r))
          (λ _. note_unknown-Ready t _ r))

pub answer-Ready : (t : Term) (bytes : List ℕ) → Ready t → Ready (answer t bytes)
answer-Ready t bytes r = dressed-Ready t (answer t bytes) r

status_report-Ready : (t : Term) (n : ℕ) → Ready t → Ready (status_report t n)
unfolding status_report
status_report-Ready t n r =
    if_elim Ready (n == 5) _ _ (λ _. answer-Ready t _ r)
      (λ _. if_elim Ready (n == 6) _ t (λ _. answer-Ready t _ r) (λ _. r))

device_attributes-Ready : (t : Term) (ps : List ℕ) → Ready t → Ready (device_attributes t ps)
unfolding device_attributes
device_attributes-Ready t [] r = answer-Ready t _ r
device_attributes-Ready t (c ∷ ps) r =
    if_elim Ready (c == b'>') _ _ (λ _. answer-Ready t _ r) (λ _. answer-Ready t _ r)

set_shape-Ready : (t : Term) (inter : List ℕ) (n : ℕ) → Ready t → Ready (set_shape t inter n)
unfolding set_shape
set_shape-Ready t inter n r =
    if_elim Ready (same_text inter (b' ' ∷ [])) _ t
      (λ _. moved-Ready t (record (t.cur) { shape = n }) t.pend r.shape.cur_row r.shape.cur_col r)
      (λ _. r)

sgr-Ready : (t : Term) (ps : List Param) → Ready t → Ready (sgr t ps)
unfolding sgr
sgr-Ready t [] r = dressed-Ready t (record t { style = no_style }) r
sgr-Ready t (n ∷ ps) r = dressed-Ready t (record t { style = sgr_from zero t.style (n ∷ ps) }) r

pub perform_plain-Ready :
    (c : Command) (t : Term) (p : Parser) (final : ℕ) (ps : List Param)
    → Ready t
    → Ready (perform_plain c t p final ps)
unfolding perform_plain
perform_plain-Ready Csi.up t p final ps r = move_up-Ready t _ r
perform_plain-Ready Csi.down t p final ps r = move_down-Ready t _ r
perform_plain-Ready Csi.forward t p final ps r = move_to-Ready t _ _ r
perform_plain-Ready Csi.back t p final ps r = move_to-Ready t _ _ r
perform_plain-Ready Csi.next_line t p final ps r = to_first_column _ (move_down-Ready t _ r)
perform_plain-Ready Csi.previous_line t p final ps r = to_first_column _ (move_up-Ready t _ r)
perform_plain-Ready Csi.to_column t p final ps r = move_to-Ready t _ _ r
perform_plain-Ready Csi.to_row t p final ps r = move_to-Ready t _ _ r
perform_plain-Ready Csi.to_position t p final ps r = move_to-Ready t _ _ r
perform_plain-Ready Csi.erase_display t p final ps r = erase_in_display-Ready t _ r
perform_plain-Ready Csi.erase_line t p final ps r = erase_in_line-Ready t _ r
perform_plain-Ready Csi.insert_lines t p final ps r = insert_lines-Ready t _ r
perform_plain-Ready Csi.delete_lines t p final ps r = delete_lines-Ready t _ r
perform_plain-Ready Csi.erase_chars t p final ps r = erase_chars-Ready t _ r
perform_plain-Ready Csi.scrolls_up t p final ps r = scroll_up-Ready _ t r
perform_plain-Ready Csi.scrolls_down t p final ps r = scroll_down-Ready _ t r
perform_plain-Ready Csi.set_region t p final ps r = set_scroll_region-Ready t ps r
perform_plain-Ready Csi.ansi_modes t p final ps r = set_ansi_modes-Ready ps t final r
perform_plain-Ready Csi.window t p final ps r = window_command-Ready t _ r
perform_plain-Ready Csi.saves t p final ps r = save_cursor-Ready t r
perform_plain-Ready Csi.restores t p final ps r = restore_cursor-Ready t r
perform_plain-Ready Csi.style t p final ps r = sgr-Ready t ps r
perform_plain-Ready Csi.report t p final ps r = status_report-Ready t _ r
perform_plain-Ready Csi.attributes t p final ps r = device_attributes-Ready t p.params r
perform_plain-Ready Csi.clear_stops t p final ps r = clear_tabs-Ready t _ r
perform_plain-Ready Csi.cursor_shape t p final ps r = set_shape-Ready t p.inter _ r
perform_plain-Ready Csi.delete_chars t p final ps r = note_unknown-Ready t _ r
perform_plain-Ready Csi.insert_chars t p final ps r = note_unknown-Ready t _ r
perform_plain-Ready Csi.other t p final ps r = note_unknown-Ready t _ r
