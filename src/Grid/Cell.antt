-- ===== src/Grid/Cell.antt =====
-- internal/vt/vt.go: cells, styles and the cursor.
--
-- A text is its list of code points, a byte a number below 256. Rows and columns are never
-- negative in a state of the emulator.
use gozellij.Prelude.{ℕ, ◌≡◌, Bool, false, List, [], ◌∷◌, length, replicate, length-replicate}

pub data ColorKind : Type 0 where
  color_default color_indexed color_rgb : ColorKind

pub record Color : Type 0 where
  pub kind : ColorKind
  pub index : ℕ
  pub r : ℕ
  pub g : ℕ
  pub b : ℕ

abbrev pub no_color : Color
no_color = record { kind = color_default; index = 0; r = 0; g = 0; b = 0 }

pub record Style : Type 0 where
  pub link : List ℕ
  pub fg : Color
  pub bg : Color
  pub bold : Bool
  pub faint : Bool
  pub italic : Bool
  pub underline : Bool
  pub blink : Bool
  pub reverse : Bool
  pub strikethrough : Bool
  pub hyperlink : List ℕ

-- `vt.Style{Bg: bg}`; the zero value has no colour.
abbrev pub plain_on : Color → Style
plain_on bg = record {
  link = [];
  fg = no_color;
  bg = bg;
  bold = false;
  faint = false;
  italic = false;
  underline = false;
  blink = false;
  reverse = false;
  strikethrough = false;
  hyperlink = [];
}

abbrev pub no_style : Style
no_style = plain_on no_color

pub record Cell : Type 0 where
  pub content : List ℕ
  pub width : ℕ
  pub style : Style

-- `vt.Cell{Content: " ", Width: 1, Style: s}`.
abbrev pub space_in : Style → Cell
space_in s = record { content = b' ' ∷ []; width = 1; style = s }

abbrev pub space : Cell
space = space_in no_style

-- The continuation cell of a wide character.
abbrev pub continuation : Style → Cell
continuation s = record { content = []; width = 0; style = s }

pub record Cursor : Type 0 where
  pub row : ℕ
  pub col : ℕ
  pub visible : Bool
  pub shape : ℕ
  pub pending : Bool

abbrev pub hidden_cursor : Cursor
hidden_cursor = record { row = 0; col = 0; visible = false; shape = 0; pending = false }

-- `blankRow`.
unfoldable pub blank_row : ℕ → List Cell
blank_row cols = replicate cols space

pub length-blank_row : (cols : ℕ) → length (blank_row cols) ≡ cols
unfolding blank_row
length-blank_row cols = length-replicate cols space
