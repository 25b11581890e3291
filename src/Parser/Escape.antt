-- ===== src/Parser/Escape.antt =====
-- internal/vt/grid/parser.go: `escape`, the byte after ESC.
use gozellij.Prelude.{
  ℕ, ◌+◌, ◌-◌, ◌/◌, ◌%◌, false, ◌&&◌, ◌||◌, Option, none, some, List, [], ◌∷◌, ◌++◌, ltb, leb, ◌==◌,
  if◌then◌else◌,
}
use gozellij.Parser.State.{Parser, Machine, State}
use gozellij.Parser.State
use gozellij.Parser.Control.{controlled}
use gozellij.Grid.Term.{Term, note_unknown, set_tab, new}
use gozellij.Grid.Move.{save_cursor, restore_cursor}
use gozellij.Grid.Scroll.{scroll_down, line_feed, at_col, at_row}
use gozellij.Modes.{esc}

unfoldable pub reverse_index : Term → Term
reverse_index t =
    if t.cur.row == t.top
    then scroll_down 1 t
    else if ltb 0 t.cur.row
    then at_row t (t.cur.row - 1)
    else t

abbrev pub esc_text : List ℕ
esc_text = b'E' ∷ b'S' ∷ b'C' ∷ b' ' ∷ []

-- What `%c` prints for a byte: a character, in UTF-8.
unfoldable pub character_text : ℕ → List ℕ
character_text c = if ltb c 0x80 then c ∷ [] else (0xc0 + c / 64) ∷ (0x80 + c % 64) ∷ []

-- The cases of the `switch` that leave the parser where it is, or in the ground state.
unfoldable pub escape_term : Term → ℕ → Term
escape_term t c =
    if c == b'7'
    then save_cursor t
    else if c == b'8'
    then restore_cursor t
    else if c == b'M'
    then reverse_index t
    else if c == b'D'
    then line_feed t
    else if c == b'E'
    then line_feed (at_col t 0)
    else if c == b'H'
    then set_tab t
    else if (c == b'=') || (c == b'>')
    then record t { keypad = c == b'=' }
    else if leb 0x20 c && leb c 0x2f
    then t
    else note_unknown t (esc_text ++ character_text c)

-- The cases that begin a sequence; `none` for any other byte.
unfoldable pub escape_parser : Parser → ℕ → Option Parser
escape_parser p c =
    if c == b'['
    then some (record p { state = State.csi; params = []; inter = [] })
    else if c == b']'
    then some (record p { state = State.osc })
    else if (c == b'P') || (c == b'X') || (c == b'^') || (c == b'_')
    then some (record p { state = State.str; str_esc = false; str_intro = c; str_head = [] })
    else if c == b'('
    then some (record p { state = State.charset_select; charset_slot = 0 })
    else if c == b')'
    then some (record p { state = State.charset_select; charset_slot = 1 })
    else none

-- Intermediate bytes are passed over.
abbrev pub after_escape : Parser → ℕ → Parser
after_escape p c = if leb 0x20 c && leb c 0x2f then p else State.to_state State.ground p

unfoldable pub escape : Machine → ℕ → Machine
escape m c =
    if c == esc
    then record m { parser = State.clear_params m.parser }
    else if ltb c 0x20
    then record m { term = controlled m.term c }
    else elim (escape_parser m.parser c) [
      | some p ↦ record m { parser = p }
      | none ↦
          if c == b'c'
          then record { term = new m.term.cols m.term.rows; parser = State.fresh_parser }
          else record { term = escape_term m.term c; parser = after_escape m.parser c }
    ]
