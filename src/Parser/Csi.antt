-- ===== src/Parser/Csi.antt =====
-- internal/vt/grid/parser.go: `csi` and `dispatch`, the control sequences.
--
-- The `switch` on the final byte is `command_of`, and `perform` has its cases.
use gozellij.Prelude.{
  same_text, ℕ, ◌+◌, ◌-◌, min, Bool, true, false, ◌&&◌, ◌||◌, Option, none, some, List, [], ◌∷◌,
  ◌++◌, ltb, leb, ◌==◌, if◌then◌else◌, get_or, set,
}
use gozellij.Parser.State.{Parser, Machine, State}
use gozellij.Parser.State
use gozellij.Parser.Numbers.{Param, params, arg, decimal_of}
use gozellij.Parser.Control.{controlled}
use gozellij.Parser.Strings.{answer}
use gozellij.Parser.Sgr.{sgr}
use gozellij.Parser.Lines
use gozellij.Grid.Term.{Term, note_unknown, push_title, pop_title, clear_tabs, set_mode}
use gozellij.Grid.Move.{
  save_cursor, restore_cursor, move_up, move_down, move_to, int_sum, save_1048, restore_1048,
}
use gozellij.Grid.Scroll.{scroll_up, scroll_down, at_col}
use gozellij.Grid.Resize.{enter_alt, leave_alt}
use gozellij.Modes.{esc, itoa}

pub data Command : Type 0 where
  up down forward back next_line previous_line to_column to_row to_position : Command
  erase_display erase_line insert_lines delete_lines delete_chars insert_chars erase_chars : Command
  scrolls_up scrolls_down set_region ansi_modes window saves restores style : Command
  report attributes clear_stops cursor_shape other : Command

unfoldable pub command_of : ℕ → Command
command_of c =
    if c == b'A'
    then up
    else if c == b'B'
    then down
    else if c == b'C'
    then forward
    else if c == b'D'
    then back
    else if c == b'E'
    then next_line
    else if c == b'F'
    then previous_line
    else if (c == b'G') || (c == b'`')
    then to_column
    else if c == b'd'
    then to_row
    else if (c == b'H') || (c == b'f')
    then to_position
    else if c == b'J'
    then erase_display
    else if c == b'K'
    then erase_line
    else if c == b'L'
    then insert_lines
    else if c == b'M'
    then delete_lines
    else if c == b'P'
    then delete_chars
    else if c == b'@'
    then insert_chars
    else if c == b'X'
    then erase_chars
    else if c == b'S'
    then scrolls_up
    else if c == b'T'
    then scrolls_down
    else if c == b'r'
    then set_region
    else if (c == b'h') || (c == b'l')
    then ansi_modes
    else if c == b't'
    then window
    else if c == b's'
    then saves
    else if c == b'u'
    then restores
    else if c == b'm'
    then style
    else if c == b'n'
    then report
    else if c == b'c'
    then attributes
    else if c == b'g'
    then clear_stops
    else if c == b'q'
    then cursor_shape
    else other

abbrev pub csi_text : List ℕ
csi_text = b'C' ∷ b'S' ∷ b'I' ∷ b' ' ∷ []

abbrev pub is_zero : List Param → ℕ → Bool
is_zero ps i = elim (get_or ps i none) [ none ↦ false | some n ↦ n == 0 ]

-- DECSTBM.
unfoldable pub set_scroll_region : Term → List Param → Term
set_scroll_region t ps =
    let top = arg ps 0 1 - 1 in
    let bottom = arg ps 1 t.rows - 1 in
    if is_zero ps 0 || is_zero ps 1
    then t
    else if leb t.rows bottom || leb bottom top
    then t
    else move_to (record t { top = top; bottom = bottom }) 0 0

-- The loop over the modes that are not private.
unfoldable pub set_ansi_modes : Term → ℕ → List Param → Term
set_ansi_modes t final [] = t
set_ansi_modes t final (n ∷ ps) =
    set_ansi_modes
      (elim n [
        | none ↦ note_unknown t (csi_text ++ decimal_of none ++ b' ' ∷ final ∷ [])
        | some k ↦
            if k == 4
            then record t { irm = final == b'h' }
            else note_unknown t (csi_text ++ decimal_of (some k) ++ b' ' ∷ final ∷ [])
      ])
      final ps

unfoldable pub window_command : Term → ℕ → Term
window_command t n =
    if n == 22
    then push_title t
    else if n == 23
    then pop_title t
    else note_unknown t (csi_text ++ decimal_of (some n) ++ b' ' ∷ b't' ∷ [])

unfoldable pub status_report : Term → ℕ → Term
status_report t n =
    if n == 5
    then answer t (esc ∷ b'[' ∷ b'0' ∷ b'n' ∷ [])
    else if n == 6
    then answer t (
        esc ∷ b'[' ∷ itoa 19 (t.cur.row + 1)
        ++ b';' ∷ itoa 19 (min t.cur.col (t.cols - 1) + 1)
        ++ b'R' ∷ [])
    else t

unfoldable pub device_attributes : Term → List ℕ → Term
device_attributes t [] = answer t (esc ∷ b'[' ∷ b'?' ∷ b'1' ∷ b';' ∷ b'2' ∷ b';' ∷ b'4' ∷ b'c' ∷ [])
device_attributes t (c ∷ ps) =
    if c == b'>'
    then answer t (esc ∷ b'[' ∷ b'>' ∷ b'0' ∷ b';' ∷ b'1' ∷ b';' ∷ b'0' ∷ b'c' ∷ [])
    else answer t (esc ∷ b'[' ∷ b'?' ∷ b'1' ∷ b';' ∷ b'2' ∷ b';' ∷ b'4' ∷ b'c' ∷ [])

unfoldable pub set_shape : Term → List ℕ → ℕ → Term
set_shape t inter n =
    if same_text inter (b' ' ∷ []) then record t { cur = record (t.cur) { shape = n } } else t

-- The cases that cannot panic; the two others are in `perform`.
unfoldable pub perform_plain : Command → Term → Parser → ℕ → List Param → Term
perform_plain up t p final ps = move_up t (arg ps 0 1)
perform_plain down t p final ps = move_down t (arg ps 0 1)
perform_plain forward t p final ps = move_to t t.cur.row (int_sum t.cur.col (arg ps 0 1))
perform_plain back t p final ps = move_to t t.cur.row (t.cur.col - arg ps 0 1)
perform_plain next_line t p final ps = at_col (move_down t (arg ps 0 1)) 0
perform_plain previous_line t p final ps = at_col (move_up t (arg ps 0 1)) 0
perform_plain to_column t p final ps = move_to t t.cur.row (arg ps 0 1 - 1)
perform_plain to_row t p final ps = move_to t (arg ps 0 1 - 1) t.cur.col
perform_plain to_position t p final ps = move_to t (arg ps 0 1 - 1) (arg ps 1 1 - 1)
perform_plain erase_display t p final ps = Lines.erase_in_display t (arg ps 0 0)
perform_plain erase_line t p final ps = Lines.erase_in_line t (arg ps 0 0)
perform_plain insert_lines t p final ps = Lines.insert_lines t (arg ps 0 1)
perform_plain delete_lines t p final ps = Lines.delete_lines t (arg ps 0 1)
perform_plain erase_chars t p final ps = Lines.erase_chars t (arg ps 0 1)
perform_plain scrolls_up t p final ps = scroll_up (arg ps 0 1) t
perform_plain scrolls_down t p final ps = scroll_down (arg ps 0 1) t
perform_plain set_region t p final ps = set_scroll_region t ps
perform_plain ansi_modes t p final ps = set_ansi_modes t final ps
perform_plain window t p final ps = window_command t (arg ps 0 0)
perform_plain saves t p final ps = save_cursor t
perform_plain restores t p final ps = restore_cursor t
perform_plain style t p final ps = sgr t ps
perform_plain report t p final ps = status_report t (arg ps 0 0)
perform_plain attributes t p final ps = device_attributes t p.params
perform_plain clear_stops t p final ps = clear_tabs t (arg ps 0 0 == 3)
perform_plain cursor_shape t p final ps = set_shape t p.inter (arg ps 0 0)
perform_plain _ t p final ps = note_unknown t (csi_text ++ p.inter ++ final ∷ [])

unfoldable pub perform : Command → Term → Parser → ℕ → List Param → Option Term
perform delete_chars t p final ps = Lines.delete_chars t (arg ps 0 1)
perform insert_chars t p final ps = Lines.insert_chars t (arg ps 0 1)
perform c t p final ps = some (perform_plain c t p final ps)

-- The private modes that `setMode` keeps.
abbrev pub is_kept_mode : ℕ → Bool
is_kept_mode n =
    (n == 1)
    || (n == 12)
    || (n == 1000)
    || (n == 1002)
    || (n == 1003)
    || (n == 1004)
    || (n == 1005)
    || (n == 1006)
    || (n == 1015)
    || (n == 2004)

abbrev pub unknown_private : Term → ℕ → Param → Term
unknown_private t final n = note_unknown t (csi_text ++ b'?' ∷ decimal_of n ++ b' ' ∷ final ∷ [])

-- The `switch` on one private mode.
unfoldable pub set_private : Term → Bool → ℕ → ℕ → Option Term
set_private t set final n =
    if n == 25
    then some (record t { cur = record (t.cur) { visible = set } })
    else if (n == 47) || (n == 1047)
    then (if set then some (enter_alt t false) else leave_alt t false)
    else if n == 1048
    then (if set then some (save_1048 t) else some (restore_1048 t))
    else if n == 7
    then some (record t { awm = set })
    else if is_kept_mode n
    then some (set_mode t n set)
    else if n == 1049
    then (if set then some (enter_alt t true) else leave_alt t true)
    else some (unknown_private t final (some n))

abbrev pub set_private_param : Term → Bool → ℕ → Param → Option Term
set_private_param t set final none = some (unknown_private t final none)
set_private_param t set final (some n) = set_private t set final n

unfoldable pub set_privates : Term → Bool → ℕ → List Param → Option Term
set_privates t set final [] = some t
set_privates t set final (n ∷ ps) = elim (set_private_param t set final n) [
  | none ↦ none
  | some u ↦ set_privates u set final ps
]

unfoldable pub dispatch_private : Term → ℕ → List ℕ → Option Term
dispatch_private t final ps =
    if (final == b'h') || (final == b'l')
    then set_privates t (final == b'h') final (params ps)
    else some t

unfoldable pub dispatch_from : Term → Parser → ℕ → List ℕ → Option Term
dispatch_from t p final [] = perform (command_of final) t p final []
dispatch_from t p final (c ∷ ps) =
    if c == b'?'
    then dispatch_private t final ps
    else perform (command_of final) t p final (params (c ∷ ps))

unfoldable pub dispatch : Term → Parser → ℕ → Option Term
dispatch t p final = dispatch_from t p final p.params

unfoldable pub csi : Machine → ℕ → Option Machine
csi m c =
    let p = m.parser in
    if leb 0x30 c && leb c 0x3f
    then some (record m { parser = record p { params = p.params ++ c ∷ [] } })
    else if leb 0x20 c && leb c 0x2f
    then some (record m { parser = record p { inter = p.inter ++ c ∷ [] } })
    else if c == esc
    then some (record m { parser = State.to_state State.escape (State.clear_params p) })
    else if ltb c 0x20
    then some (record m { term = controlled m.term c })
    else if ltb c 0x40 || ltb 0x7e c
    then some (record m { parser = State.to_state State.ground p })
    else State.with_term (State.to_state State.ground p) (dispatch m.term p c)
