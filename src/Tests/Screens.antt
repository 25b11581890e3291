-- ===== src/Tests/Screens.antt =====
-- internal/vt/grid: runs of the scrollback and of the terminal.
use gozellij.Prelude.{
  ℕ, ◌+◌, ◌-◌, ◌≤◌, ◌<◌, min, ◌≡◌, refl, ◌⊎◌, inr, true, false, none, some, List, [], ◌∷◌, ◌++◌,
  arith, keep_last,
}
use gozellij.Grid.History.{HistLine, HistRing, scrollback, push, set_limit, lines_from, line_at}
use gozellij.Grid.Term.{Term, new}
use gozellij.Grid.Shape.{WellFormed, new-WellFormed}
use gozellij.Grid.Ops.{
  Op, puts, wraps, enters_alt, resizes, leaves_alt, saves_1048, restores_1048, inserts_lines,
  deletes_chars,
}
use gozellij.Grid.Draw.{put_string}
use gozellij.Grid.Cell.{no_style, hidden_cursor}
use gozellij.Grid.History.Refine.{scrollback-set_limit, scrollback-push}
use gozellij.Grid.History.Pushing.{IsValid}
use gozellij.Grid.Shape.Drawing.{put_string_lem}
use gozellij.Layout.{Pane, compose}
use gozellij.Layout.Cursors.{compose_cursor}

abbrev line : ℕ → HistLine
line c = record {
  cells = record { content = c ∷ []; width = 1; style = no_style } ∷ [];
  wrapped = false;
  used = 1;
}

-- A full ring of two lines that has gone round once.
abbrev gone_round : HistRing
gone_round = record { lines = line b'c' ∷ line b'b' ∷ []; start = 1; n = 2; limit = 2 }

gone_round-IsValid : IsValid gone_round
gone_round-IsValid = record { full = refl; within = omega arith; round = inr (omega arith, refl) }

-- The oldest line goes.
push_drops_oldest : scrollback (push gone_round (line b'd')) ≡ line b'c' ∷ line b'd' ∷ []
unfolding scrollback push lines_from line_at
push_drops_oldest = refl

scrollback-push_example :
    scrollback (push gone_round (line b'd')) ≡ keep_last 2 (scrollback gone_round ++ line b'd' ∷ [])
scrollback-push_example = scrollback-push gone_round (line b'd') gone_round-IsValid

scrollback-set_limit_example :
    scrollback (set_limit gone_round 1) ≡ keep_last 1 (scrollback gone_round)
scrollback-set_limit_example = scrollback-set_limit gone_round 1 gone_round-IsValid

-- A prompt that wraps, an alternate screen and a resize on the way.
abbrev session : List Op
session =
    puts b'$' 1
    ∷ puts 0x4e2d 2
    ∷ wraps
    ∷ saves_1048
    ∷ inserts_lines 2
    ∷ deletes_chars 1
    ∷ enters_alt true
    ∷ resizes 5 2
    ∷ leaves_alt true
    ∷ restores_1048
    ∷ []

-- A wide character on a screen of one column.
put_string_lem_example :
    ((2 ≤ (new 1 3).cols)
      × (u : Term) × (put_string (new 1 3) (0x4e2d ∷ []) 2 ≡ some u)
      × WellFormed u)
    ⊎ (((new 1 3).cols < 2) × (put_string (new 1 3) (0x4e2d ∷ []) 2 ≡ none))
put_string_lem_example = put_string_lem (new 1 3) (0x4e2d ∷ []) 2 (new-WellFormed 1 3)

-- Two panes side by side on a screen of six columns, the right one focused.
abbrev left_pane : Pane
left_pane = record {
  rect = record { col = 0; row = 0; cols = 3; rows = 1 };
  grid = ((line b'a').cells ++ (line b'b').cells ++ (line b'c').cells) ∷ [];
  cursor = hidden_cursor;
  focused = false;
}

abbrev right_pane : Pane
right_pane = record {
  rect = record { col = 3; row = 0; cols = 3; rows = 1 };
  grid = ((line b'x').cells ++ (line b'y').cells ++ (line b'z').cells) ∷ [];
  cursor = record hidden_cursor { col = 7; visible = true };
  focused = true;
}

compose_cursor_example :
    let c = (compose 6 1 (left_pane ∷ right_pane ∷ [])).cur in
    (c.visible ≡ true)
    × (c.row ≡ min (0 + right_pane.cursor.row) (min (0 + 1 - 1) (1 - 1)))
    × (c.col ≡ min (3 + right_pane.cursor.col) (min (3 + 3 - 1) (6 - 1)))
    × ((0 ≤ c.row) × (c.row < 1) × (c.row < 1))
    × ((3 ≤ c.col) × (c.col < 6) × (c.col < 6))
compose_cursor_example =
    compose_cursor 6 1 (left_pane ∷ []) right_pane [] refl tt (omega arith) (omega arith)
      (omega arith) (omega arith)
