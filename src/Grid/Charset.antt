-- ===== src/Grid/Charset.antt =====
-- internal/vt/grid/charset.go: the character set that draws boxes.
use gozellij.Prelude.{
  ℕ, zero, suc, ◌-◌, Option, none, some, List, [], ◌∷◌, leb, ◌==◌, if◌then◌else◌,
}
use gozellij.Grid.Term.{Term, Charset, charset_ascii, charset_graphics}

-- `decSpecialGraphics`, from the backquote on.
abbrev pub dec_special_graphics : List ℕ
dec_special_graphics =
    0x25c6 ∷ 0x2592 ∷ 0x2409 ∷ 0x240c ∷ 0x240d ∷ 0x240a ∷ 0xb0 ∷ 0xb1 ∷ 0x2424 ∷ 0x240b ∷ 0x2518
    ∷ 0x2510 ∷ 0x250c ∷ 0x2514 ∷ 0x253c ∷ 0x23ba ∷ 0x23bb ∷ 0x2500 ∷ 0x23bc ∷ 0x23bd ∷ 0x251c
    ∷ 0x2524 ∷ 0x2534 ∷ 0x252c ∷ 0x2502 ∷ 0x2264 ∷ 0x2265 ∷ 0x3c0 ∷ 0x2260 ∷ 0xa3 ∷ 0xb7 ∷ []

unfoldable pub glyph_at : List ℕ → ℕ → Option (List ℕ)
glyph_at [] i = none
glyph_at (g ∷ gs) zero = some (g ∷ [])
glyph_at (g ∷ gs) (suc i) = glyph_at gs i

abbrev pub charset_in_use : Term → Charset
charset_in_use t = if t.active == 1 then t.g1 else t.g0

-- A rune past 0x7f has no glyph.
unfoldable pub map_rune : Term → ℕ → Option (List ℕ)
map_rune t r = elim (charset_in_use t) [
  | charset_ascii ↦ none
  | charset_graphics ↦ if leb b'`' r then glyph_at dec_special_graphics (r - b'`') else none
]
