-- ===== src/Parser/Control.antt =====
-- internal/vt/grid/parser.go: `control`, the C0 control characters.
use gozellij.Prelude.{ℕ, ◌-◌, false, ◌||◌, Option, none, some, ltb, ◌==◌, if◌then◌else◌}
use gozellij.Grid.Term.{Term, next_tab, shift_to}
use gozellij.Grid.Scroll.{line_feed, at_col}

abbrev pub settled : Term → Term
settled t = record t { pend = false }

unfoldable pub backspace : Term → Term
backspace t = if t.pend then settled t else if ltb 0 t.cur.col then at_col t (t.cur.col - 1) else t

unfoldable pub tabulate : Term → Term
tabulate t = if t.pend then t else at_col t (next_tab t)

-- `none` for a byte that is no control character.
unfoldable pub control : Term → ℕ → Option Term
control t c =
    if c == 0x0d
    then some (settled (at_col t 0))
    else if (c == 0x0a) || (c == 0x0b) || (c == 0x0c)
    then some (settled (line_feed t))
    else if c == 0x08
    then some (backspace t)
    else if c == 0x09
    then some (tabulate t)
    else if c == 0x0e
    then some (shift_to t 1)
    else if c == 0x0f
    then some (shift_to t 0)
    else if ltb c 0x20 || (c == 0x7f)
    then some t
    else none

-- What `control` did, its answer dropped.
abbrev pub controlled : Term → ℕ → Term
controlled t c = elim (control t c) [ none ↦ t | some u ↦ u ]
