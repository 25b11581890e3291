-- ===== src/Parser/Safety/Strings.antt =====
-- internal/vt/grid/parser.go: commands and control strings keep the shape of the terminal.
use gozellij.Prelude.{
  same_text, ℕ, not, ◌&&◌, ◌||◌, Option, none, some, List, [], ◌∷◌, ◌++◌, ltb, ◌==◌, if_elim,
  length,
}
use gozellij.Parser.State.{Machine}
use gozellij.Parser.Safety.{Ready, Term, dressed-Ready}
use gozellij.Parser.Strings
use gozellij.Parser.Strings.{
  ask_colour, set_link, set_directory, system_command, finish_osc, finish_str, device_string,
  has_control, osc_limit, starts_with, str_head_max, colour_ask_limit, second_is, is_sixel,
}
use gozellij.Parser.Safety.Sequences.{ReadyMachine}
use gozellij.Modes.{esc}
use gozellij.Parser.Safety.Commands.{note_unknown-Ready, answer-Ready}

ask_colour-Ready :
    (t : Term) (num : List ℕ) (n : ℕ) (argument : List ℕ)
    → Ready t
    → Ready (ask_colour t num n argument)
unfolding ask_colour
ask_colour-Ready t num n argument r =
    if_elim Ready (not (same_text argument (b'?' ∷ []))) _ _ (λ _. note_unknown-Ready t _ r)
      (λ _.
        if_elim Ready (ltb (length t.colour_asks) colour_ask_limit) _ t
          (λ _. dressed-Ready t (record t { colour_asks = t.colour_asks ++ n ∷ [] }) r) (λ _. r))

set_link-Ready : (t : Term) (argument : List ℕ) → Ready t → Ready (set_link t argument)
unfolding set_link
set_link-Ready t argument r = linked (Strings.cut argument)
  where
    linked :
        (o : Option (List ℕ × List ℕ))
        → Ready (elim o [
          | none ↦ record t { style = record (t.style) { link = [] } }
          | some (id, uri) ↦ record t { style = record (t.style) { link = uri } }
        ])
    linked none = dressed-Ready t (record t { style = record (t.style) { link = [] } }) r
    linked (some (id, uri)) =
        dressed-Ready t (record t { style = record (t.style) { link = uri } }) r

set_directory-Ready : (t : Term) (argument : List ℕ) → Ready t → Ready (set_directory t argument)
unfolding set_directory
set_directory-Ready t argument r =
    if_elim Ready (has_control argument) _ _ (λ _. note_unknown-Ready t _ r)
      (λ _. dressed-Ready t (record t { dir = argument }) r)

system_command-Ready :
    (t : Term) (num argument : List ℕ) → Ready t → Ready (system_command t num argument)
unfolding system_command
system_command-Ready t num argument r =
    if_elim Ready (same_text num (b'1' ∷ b'0' ∷ [])) _ _ (λ _. ask_colour-Ready t num 10 argument r)
      (λ _.
        if_elim Ready (same_text num (b'1' ∷ b'1' ∷ [])) _ _
          (λ _. ask_colour-Ready t num 11 argument r)
          (λ _.
            if_elim Ready (same_text num (b'8' ∷ [])) _ _ (λ _. set_link-Ready t argument r)
              (λ _.
                if_elim Ready (same_text num (b'7' ∷ [])) _ _
                  (λ _. set_directory-Ready t argument r)
                  (λ _.
                    if_elim Ready (same_text num (b'0' ∷ []) || same_text num (b'2' ∷ [])) _ _
                      (λ _. dressed-Ready t (record t { title = argument }) r)
                      (λ _. note_unknown-Ready t _ r)))))

finish_osc-Ready : (m : Machine) → Ready m.term → Ready (finish_osc m).term
unfolding finish_osc
finish_osc-Ready m r = commanded (Strings.cut m.parser.osc_buf)
  where
    commanded :
        (o : Option (List ℕ × List ℕ))
        → Ready
            (elim o [ none ↦ m.term | some (num, argument) ↦ system_command m.term num argument ])
    commanded none = r
    commanded (some (num, argument)) = system_command-Ready m.term num argument r

pub osc-Ready : (m : Machine) (c : ℕ) → Ready m.term → Ready (Strings.osc m c).term
unfolding Strings.osc
osc-Ready m c r =
    if_elim ReadyMachine ((c == 0x07) || (c == esc)) _ _ (λ _. finish_osc-Ready m r)
      (λ _. if_elim ReadyMachine (ltb (length m.parser.osc_buf) osc_limit) _ m (λ _. r) (λ _. r))

finish_str-Ready :
    (t : Term) (intro : ℕ) (head : List ℕ) → Ready t → Ready (finish_str t intro head)
unfolding finish_str device_string
finish_str-Ready t intro head r =
    if_elim Ready (intro == b'_') _ _
      (λ _. if_elim Ready (starts_with b'G' head) _ t (λ _. note_unknown-Ready t _ r) (λ _. r))
      (λ _.
        if_elim Ready (intro == b'P') _ t
          (λ _.
            if_elim Ready (second_is b'q' head && starts_with b'$' head) _ _
              (λ _. answer-Ready t _ r)
              (λ _.
                if_elim Ready (second_is b'q' head && starts_with b'+' head) _ _
                  (λ _. note_unknown-Ready t _ r)
                  (λ _.
                    if_elim Ready (is_sixel head) _ t (λ _. note_unknown-Ready t _ r) (λ _. r))))
          (λ _. r))

pub str-Ready : (m : Machine) (c : ℕ) → Ready m.term → Ready (Strings.str m c).term
unfolding Strings.str
str-Ready m c r =
    if_elim ReadyMachine m.parser.str_esc _ _
      (λ _. if_elim ReadyMachine (c == 0x5c) _ _ (λ _. finish_str-Ready m.term _ _ r) (λ _. r))
      (λ _.
        if_elim ReadyMachine (c == esc) _ _ (λ _. r)
          (λ _.
            if_elim ReadyMachine (ltb (length m.parser.str_head) str_head_max) _ m (λ _. r)
              (λ _. r)))
