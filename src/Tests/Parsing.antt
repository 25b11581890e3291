-- ===== src/Tests/Parsing.antt =====
-- internal/vt/grid/parser.go, internal/vt/width.go: streams fed to a terminal, and truncations.
use gozellij.Grid.Move.{eff_col}
use gozellij.Parser.Lines.{delete_chars}
use gozellij.Prelude.{ℕ, ◌≡◌, refl, Bool, none, some, List, [], ◌∷◌, ◌++◌, ◌==◌}
use gozellij.Parser.State.{new_machine}
use gozellij.Parser.Feed.{feed}
use gozellij.Parser.Split.{feed-append}
use gozellij.Width.{truncate_to_width, rune_width, truncate_from, is_wide}
use gozellij.Grid.Term.{new}
use gozellij.Grid.Scroll.{at_col}
use gozellij.Parser.Numbers.{max_int}

-- The combining acute accent alone.
abbrev accent : ℕ → Bool
accent r = r == 0x301

-- A colour, the first half of e acute; its second half, a cursor movement and a letter.
abbrev first_write : List ℕ
first_write = 0x1b ∷ b'[' ∷ b'3' ∷ b'1' ∷ b'm' ∷ 0xc3 ∷ []

abbrev second_write : List ℕ
second_write = 0xa9 ∷ 0x1b ∷ b'[' ∷ b'C' ∷ b'x' ∷ []

feed-append_example :
    feed accent (new_machine 4 2) (first_write ++ second_write)
    ≡ elim (feed accent (new_machine 4 2) first_write) [
      | none ↦ none
      | some m ↦ feed accent m second_write
    ]
feed-append_example = feed-append accent (new_machine 4 2) first_write second_write

-- A letter, a wide character and a letter in two columns.
abbrev wide_text : List ℕ
wide_text = b'a' ∷ 0x4e00 ∷ b'b' ∷ []

drops_straddling : truncate_to_width accent wide_text 2 ≡ b'a' ∷ []
unfolding truncate_to_width truncate_from rune_width is_wide
drops_straddling = refl

-- In the second column, the largest count there is takes the sum past the largest `int`.
deletion_overflows : delete_chars (at_col (new 4 2) 1) max_int ≡ none
unfolding delete_chars eff_col new
deletion_overflows = refl
