-- ===== src/Parser/Strings.antt =====
-- internal/vt/grid/parser.go: operating-system commands and control strings.
use gozellij.Prelude.{
  same_text, ℕ, Bool, true, false, not, ◌&&◌, ◌||◌, Option, none, some, List, [], ◌∷◌, ◌++◌, ltb,
  ◌==◌, if◌then◌else◌, length,
}
use gozellij.Parser.State.{Machine, ground}
use gozellij.Grid.Term.{Term, note_unknown}
use gozellij.Modes.{esc, is_digit}

abbrev pub answer : Term → List ℕ → Term
answer t bytes = record t { replies = t.replies ++ bytes }

-- `strings.Cut(s, ";")`: `none` where there is no semicolon.
unfoldable pub cut : List ℕ → Option (List ℕ × List ℕ)
cut [] = none
cut (c ∷ s) =
    let rest = cut s in
    if c == b';'
    then some ([], s)
    else elim rest [ none ↦ none | some (before, after) ↦ some (c ∷ before, after) ]

abbrev pub colour_ask_limit : ℕ
colour_ask_limit = 10

abbrev pub osc_limit : ℕ
osc_limit = 1024

unfoldable pub has_control : List ℕ → Bool
has_control [] = false
has_control (c ∷ s) = ltb c 0x20 || (c == 0x7f) || has_control s

abbrev pub osc_text : List ℕ
osc_text = b'O' ∷ b'S' ∷ b'C' ∷ b' ' ∷ []

-- "OSC 7 with a control byte in it".
abbrev pub bad_directory_text : List ℕ
bad_directory_text =
    osc_text
    ++ (b'7' ∷ b' ' ∷ b'w' ∷ b'i' ∷ b't' ∷ b'h' ∷ b' ' ∷ b'a' ∷ b' ' ∷ b'c' ∷ b'o' ∷ b'n' ∷ b't'
        ∷ b'r' ∷ b'o' ∷ b'l' ∷ b' ' ∷ b'b' ∷ b'y' ∷ b't' ∷ b'e' ∷ b' ' ∷ b'i' ∷ b'n' ∷ b' ' ∷ b'i'
        ∷ b't' ∷ [])

unfoldable pub ask_colour : Term → List ℕ → ℕ → List ℕ → Term
ask_colour t num n argument =
    if not (same_text argument (b'?' ∷ []))
    then note_unknown t (osc_text ++ num)
    else if ltb (length t.colour_asks) colour_ask_limit
    then record t { colour_asks = t.colour_asks ++ n ∷ [] }
    else t

-- OSC 8: an address behind a second semicolon, or a link that ends.
unfoldable pub set_link : Term → List ℕ → Term
set_link t argument = elim (cut argument) [
  | none ↦ record t { style = record (t.style) { link = [] } }
  | some (id, uri) ↦ record t { style = record (t.style) { link = uri } }
]

unfoldable pub set_directory : Term → List ℕ → Term
set_directory t argument =
    if has_control argument then note_unknown t bad_directory_text else record t { dir = argument }

-- The `switch` of `finishOSC`.
unfoldable pub system_command : Term → List ℕ → List ℕ → Term
system_command t num argument =
    if same_text num (b'1' ∷ b'0' ∷ [])
    then ask_colour t num 10 argument
    else if same_text num (b'1' ∷ b'1' ∷ [])
    then ask_colour t num 11 argument
    else if same_text num (b'8' ∷ [])
    then set_link t argument
    else if same_text num (b'7' ∷ [])
    then set_directory t argument
    else if same_text num (b'0' ∷ []) || same_text num (b'2' ∷ [])
    then record t { title = argument }
    else note_unknown t (osc_text ++ num)

unfoldable pub finish_osc : Machine → Machine
finish_osc m = record {
  term = elim (cut m.parser.osc_buf) [
    | none ↦ m.term
    | some (num, argument) ↦ system_command m.term num argument
  ];
  parser = record (m.parser) { state = ground; osc_buf = [] };
}

unfoldable pub osc : Machine → ℕ → Machine
osc m c =
    if (c == 0x07) || (c == esc)
    then finish_osc m
    else if ltb (length m.parser.osc_buf) osc_limit
    then record m { parser = record (m.parser) { osc_buf = m.parser.osc_buf ++ c ∷ [] } }
    else m

abbrev pub str_head_max : ℕ
str_head_max = 16

-- "APC G image", "DCS +q request" and "DCS sixel image".
abbrev pub apc_text : List ℕ
apc_text = b'A' ∷ b'P' ∷ b'C' ∷ b' ' ∷ b'G' ∷ b' ' ∷ b'i' ∷ b'm' ∷ b'a' ∷ b'g' ∷ b'e' ∷ []

abbrev pub request_text : List ℕ
request_text =
    b'D' ∷ b'C' ∷ b'S' ∷ b' ' ∷ b'+' ∷ b'q' ∷ b' ' ∷ b'r' ∷ b'e' ∷ b'q' ∷ b'u' ∷ b'e' ∷ b's' ∷ b't'
    ∷ []

abbrev pub sixel_text : List ℕ
sixel_text =
    b'D' ∷ b'C' ∷ b'S' ∷ b' ' ∷ b's' ∷ b'i' ∷ b'x' ∷ b'e' ∷ b'l' ∷ b' ' ∷ b'i' ∷ b'm' ∷ b'a' ∷ b'g'
    ∷ b'e' ∷ []

-- Parameters, and then the letter q.
unfoldable pub is_sixel : List ℕ → Bool
is_sixel [] = false
is_sixel (c ∷ s) = let rest = is_sixel s in if is_digit c || (c == b';') then rest else c == b'q'

abbrev pub starts_with : ℕ → List ℕ → Bool
starts_with c [] = false
starts_with c (d ∷ s) = d == c

abbrev pub second_is : ℕ → List ℕ → Bool
second_is c [] = false
second_is c (d ∷ s) = starts_with c s

-- What `finishStr` does with the head of a device control string.
unfoldable pub device_string : Term → List ℕ → Term
device_string t head =
    if second_is b'q' head && starts_with b'$' head
    then answer t (esc ∷ b'P' ∷ b'0' ∷ b'$' ∷ b'r' ∷ esc ∷ 0x5c ∷ [])
    else if second_is b'q' head && starts_with b'+' head
    then note_unknown t request_text
    else if is_sixel head
    then note_unknown t sixel_text
    else t

unfoldable pub finish_str : Term → ℕ → List ℕ → Term
finish_str t intro head =
    if intro == b'_'
    then (if starts_with b'G' head then note_unknown t apc_text else t)
    else if intro == b'P'
    then device_string t head
    else t

unfoldable pub str : Machine → ℕ → Machine
str m c =
    if m.parser.str_esc
    then if c == 0x5c
      then record {
        term = finish_str m.term m.parser.str_intro m.parser.str_head;
        parser = record (m.parser) { str_esc = false; state = ground };
      }
      else record m { parser = record (m.parser) { str_esc = false } }
    else if c == esc
    then record m { parser = record (m.parser) { str_esc = true } }
    else if ltb (length m.parser.str_head) str_head_max
    then record m { parser = record (m.parser) { str_head = m.parser.str_head ++ c ∷ [] } }
    else m
