-- ===== src/Parser/Sgr.antt =====
-- internal/vt/grid/parser.go: `sgr` and `extendedColor`, the style of what is drawn from now on.
use gozellij.Prelude.{
  ℕ, zero, suc, ◌+◌, ◌-◌, true, false, ◌&&◌, none, some, List, [], ◌∷◌, leb, ◌==◌, if◌then◌else◌,
  length,
}
use gozellij.Parser.Numbers.{Param, uint8}
use gozellij.Grid.Cell.{Style, Color, color_indexed, color_rgb, no_color, no_style}
use gozellij.Grid.Term.{Term}

abbrev pub indexed : ℕ → Color
indexed n = record { kind = color_indexed; index = n; r = 0; g = 0; b = 0 }

abbrev pub rgb : ℕ → ℕ → ℕ → Color
rgb r g b = record { kind = color_rgb; index = 0; r = r; g = g; b = b }

-- The colour, and how many parameters it took.
unfoldable pub indexed_color : List Param → Color × ℕ
indexed_color [] = (no_color, 1)
indexed_color (n ∷ ps) = (indexed (uint8 n), 2)

unfoldable pub rgb_color : List Param → Color × ℕ
rgb_color (r ∷ g ∷ b ∷ ps) = (rgb (uint8 r) (uint8 g) (uint8 b), 4)
rgb_color ps = (no_color, 1 + length ps)

unfoldable pub extended_color : List Param → Color × ℕ
extended_color [] = (no_color, 0)
extended_color (none ∷ ps) = (no_color, 1)
extended_color (some k ∷ ps) =
    if k == 5 then indexed_color ps else if k == 2 then rgb_color ps else (no_color, 1)

-- The attributes and colours of one parameter, the extended colours apart.
unfoldable pub plain_sgr : Style → ℕ → Style
plain_sgr s n =
    if n == 0
    then no_style
    else if n == 1
    then record s { bold = true }
    else if n == 2
    then record s { faint = true }
    else if n == 3
    then record s { italic = true }
    else if n == 4
    then record s { underline = true }
    else if n == 5
    then record s { blink = true }
    else if n == 7
    then record s { reverse = true }
    else if n == 9
    then record s { strikethrough = true }
    else if n == 22
    then record s { bold = false; faint = false }
    else if n == 23
    then record s { italic = false }
    else if n == 24
    then record s { underline = false }
    else if n == 27
    then record s { reverse = false }
    else if n == 25
    then record s { blink = false }
    else if n == 29
    then record s { strikethrough = false }
    else if leb 30 n && leb n 37
    then record s { fg = indexed (n - 30) }
    else if leb 40 n && leb n 47
    then record s { bg = indexed (n - 40) }
    else if n == 39
    then record s { fg = no_color }
    else if n == 49
    then record s { bg = no_color }
    else if leb 90 n && leb n 97
    then record s { fg = indexed (n - 90 + 8) }
    else if leb 100 n && leb n 107
    then record s { bg = indexed (n - 100 + 8) }
    else s

-- One round of the loop: the style, and how many of the parameters that follow it took.
unfoldable pub sgr_round : Style → Param → List Param → Style × ℕ
sgr_round s none ps = (s, 0)
sgr_round s (some n) ps =
    let (c, taken) = extended_color ps in
    if n == 38
    then (record s { fg = c }, taken)
    else if n == 48
    then (record s { bg = c }, taken)
    else (plain_sgr s n, 0)

-- The loop, with the number of parameters that are still to be passed over.
unfoldable pub sgr_from : ℕ → Style → List Param → Style
sgr_from skip s [] = s
sgr_from zero s (n ∷ ps) = let r = sgr_round s n ps in sgr_from r.1 r.0 ps
sgr_from (suc skip) s (n ∷ ps) = sgr_from skip s ps

unfoldable pub sgr : Term → List Param → Term
sgr t [] = record t { style = no_style }
sgr t (n ∷ ps) = record t { style = sgr_from zero t.style (n ∷ ps) }
