-- ===== src/Parser/Safety/Sequences.antt =====
-- internal/vt/grid/parser.go: the bytes of a sequence, and control characters.
use gozellij.Prelude.{
  ℕ, ◌-◌, refl, ◌∙◌, true, ◌&&◌, ◌||◌, Option, none, some, arith, ltb, leb, ◌==◌, if◌then◌else◌,
  if_elim, set, length-set,
}
use gozellij.Grid.Term.{
  Term, set_tab, new, shift_to, next_tab, select_charset, charset_graphics, charset_ascii,
}
use gozellij.Parser.State.{Machine, Parser}
use gozellij.Parser.State
use gozellij.Parser.Safety.{Ready, Kept-Ready, dressed-Ready, moved-Ready, new-Ready}
use gozellij.Parser.Escape
use gozellij.Parser.Escape.{reverse_index, escape_term, after_escape}
use gozellij.Parser.Control.{settled, backspace, tabulate, control, controlled}
use gozellij.Modes.{esc}
use gozellij.Grid.Shape.Steps.{tabs-WellFormed, next_tab-lt}
use gozellij.Parser.Safety.Drawing.{scroll_down-Ready, line_feed-Ready}
use gozellij.Parser.Safety.Commands.{
  save_cursor-Ready, to_first_column, restore_cursor-Ready, note_unknown-Ready,
}

settled-Ready : (t : Term) → Ready t → Ready (settled t)
settled-Ready t r = dressed-Ready t (settled t) r

backspace-Ready : (t : Term) → Ready t → Ready (backspace t)
unfolding backspace
backspace-Ready t r =
    if_elim Ready t.pend _ _ (λ _. settled-Ready t r)
      (λ _.
        if_elim Ready (ltb 0 t.cur.col) _ t
          (λ _.
            moved-Ready t (record (t.cur) { col = t.cur.col - 1 }) t.pend r.shape.cur_row
              (omega (arith, r.shape.cur_col)) r)
          (λ _. r))

tabulate-Ready : (t : Term) → Ready t → Ready (tabulate t)
unfolding tabulate
tabulate-Ready t r =
    if_elim Ready t.pend t _ (λ _. r)
      (λ _.
        moved-Ready t (record (t.cur) { col = next_tab t }) t.pend r.shape.cur_row
          (next_tab-lt t r.shape) r)

-- A control character, or none.
abbrev pub AllReady : Option Term → Type 0
AllReady none = Unit
AllReady (some t) = Ready t

pub control-Ready : (t : Term) (c : ℕ) → Ready t → AllReady (control t c)
unfolding control shift_to
control-Ready t c r =
    if_elim AllReady (c == 0x0d) _ _ (λ _. settled-Ready _ (to_first_column t r))
      (λ _.
        if_elim AllReady ((c == 0x0a) || (c == 0x0b) || (c == 0x0c)) _ _
          (λ _. settled-Ready _ (line_feed-Ready t r))
          (λ _.
            if_elim AllReady (c == 0x08) _ _ (λ _. backspace-Ready t r)
              (λ _.
                if_elim AllReady (c == 0x09) _ _ (λ _. tabulate-Ready t r)
                  (λ _.
                    if_elim AllReady (c == 0x0e) _ _ (λ _. dressed-Ready t (shift_to t 1) r)
                      (λ _.
                        if_elim AllReady (c == 0x0f) _ _ (λ _. dressed-Ready t (shift_to t 0) r)
                          (λ _.
                            if_elim AllReady (ltb c 0x20 || (c == 0x7f)) (some t) none (λ _. r)
                              (λ _. tt)))))))

pub controlled-Ready : (t : Term) (c : ℕ) → Ready t → Ready (controlled t c)
controlled-Ready t c r = after (control t c) (control-Ready t c r)
  where
    after : (o : Option Term) → AllReady o → Ready (elim o [ none ↦ t | some u ↦ u ])
    after none h = r
    after (some u) h = h

set_tab-Ready : (t : Term) → Ready t → Ready (set_tab t)
unfolding set_tab
set_tab-Ready t r =
    Kept-Ready (record t { tabs = set t.tabs t.cur.col true }) r
      (tabs-WellFormed t (set t.tabs t.cur.col true)
        (length-set t.tabs t.cur.col true ∙ r.shape.tabs_len) r.shape)
      (refl, refl, refl, refl)

reverse_index-Ready : (t : Term) → Ready t → Ready (reverse_index t)
unfolding reverse_index
reverse_index-Ready t r =
    if_elim Ready (t.cur.row == t.top) _ _ (λ _. scroll_down-Ready 1 t r)
      (λ _.
        if_elim Ready (ltb 0 t.cur.row) _ t
          (λ _.
            moved-Ready t (record (t.cur) { row = t.cur.row - 1 }) t.pend
              (omega (arith, r.shape.cur_row)) r.shape.cur_col r)
          (λ _. r))

escape_term-Ready : (t : Term) (c : ℕ) → Ready t → Ready (escape_term t c)
unfolding escape_term
escape_term-Ready t c r =
    if_elim Ready (c == b'7') _ _ (λ _. save_cursor-Ready t r)
      (λ _.
        if_elim Ready (c == b'8') _ _ (λ _. restore_cursor-Ready t r)
          (λ _.
            if_elim Ready (c == b'M') _ _ (λ _. reverse_index-Ready t r)
              (λ _.
                if_elim Ready (c == b'D') _ _ (λ _. line_feed-Ready t r)
                  (λ _.
                    if_elim Ready (c == b'E') _ _ (λ _. line_feed-Ready _ (to_first_column t r))
                      (λ _.
                        if_elim Ready (c == b'H') _ _ (λ _. set_tab-Ready t r)
                          (λ _.
                            if_elim Ready ((c == b'=') || (c == b'>')) _ _
                              (λ _. dressed-Ready t (record t { keypad = c == b'=' }) r)
                              (λ _.
                                if_elim Ready (leb 0x20 c && leb c 0x2f) t _ (λ _. r)
                                  (λ _. note_unknown-Ready t _ r))))))))

-- The terminal of a machine is ready.
abbrev pub ReadyMachine : Machine → Type 0
ReadyMachine m = Ready m.term

pub escape-Ready : (m : Machine) (c : ℕ) → Ready m.term → Ready (Escape.escape m c).term
unfolding Escape.escape
escape-Ready m c r =
    if_elim ReadyMachine (c == esc) _ _ (λ _. r)
      (λ _.
        if_elim ReadyMachine (ltb c 0x20) _ _ (λ _. controlled-Ready m.term c r)
          (λ _. begun (Escape.escape_parser m.parser c)))
  where
    begun :
        (o : Option Parser)
        → ReadyMachine (elim o [
          | some p ↦ record m { parser = p }
          | none ↦
              if c == b'c'
              then record { term = new m.term.cols m.term.rows; parser = State.fresh_parser }
              else record { term = escape_term m.term c; parser = after_escape m.parser c }
        ])
    begun (some p) = r
    begun none =
        if_elim ReadyMachine (c == b'c') _ _ (λ _. new-Ready m.term.cols m.term.rows r.wide)
          (λ _. escape_term-Ready m.term c r)

pub select_charset-Ready : (t : Term) (slot code : ℕ) → Ready t → Ready (select_charset t slot code)
unfolding select_charset
select_charset-Ready t slot code r =
    if_elim Ready (slot == 0) _ _
      (λ _.
        dressed-Ready t (record t { g0 = if code == b'0' then charset_graphics else charset_ascii })
          r)
      (λ _.
        dressed-Ready t (record t { g1 = if code == b'0' then charset_graphics else charset_ascii })
          r)
