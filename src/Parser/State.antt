-- ===== src/Parser/State.antt =====
-- internal/vt/grid/parser.go: the state that the parser keeps between writes.
use gozellij.Prelude.{ℕ, Bool, false, Option, none, some, List, []}
use gozellij.Grid.Term.{Term, new}

pub data State : Type 0 where
  ground escape csi osc charset_select str : State

pub record Parser : Type 0 where
  pub state : State
  pub str_esc : Bool
  pub str_intro : ℕ
  pub str_head : List ℕ
  pub params : List ℕ
  pub inter : List ℕ
  pub utf8 : List ℕ
  pub osc_buf : List ℕ
  pub charset_slot : ℕ
  pub invalid : Bool

-- The zero value.
abbrev pub fresh_parser : Parser
fresh_parser = record {
  state = ground;
  str_esc = false;
  str_intro = 0;
  str_head = [];
  params = [];
  inter = [];
  utf8 = [];
  osc_buf = [];
  charset_slot = 0;
  invalid = false;
}

-- A `Term` of the source, whose field `parser` stands beside the rest here.
pub record Machine : Type 0 where
  pub term : Term
  pub parser : Parser

unfoldable pub new_machine : ℕ → ℕ → Machine
new_machine cols rows = record { term = new cols rows; parser = fresh_parser }

abbrev pub to_state : State → Parser → Parser
to_state s p = record p { state = s }

-- The two buffers of a control sequence, emptied.
abbrev pub clear_params : Parser → Parser
clear_params p = record p { params = []; inter = [] }

-- A parser with what became of the terminal; `none` is a panic.
abbrev pub with_term : Parser → Option Term → Option Machine
with_term p none = none
with_term p (some t) = some (record { term = t; parser = p })
