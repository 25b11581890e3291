-- ===== src/Parser/Utf8.antt =====
-- The package unicode/utf8 as internal/vt/grid/parser.go uses it, and `couldComplete`.
use gozellij.Prelude.{
  ℕ, ◌+◌, ◌-◌, ◌*◌, Bool, true, false, not, ◌&&◌, ◌||◌, List, [], ◌∷◌, ltb, leb, ◌==◌,
  if◌then◌else◌, length, get_or,
}

abbrev pub rune_error : ℕ
rune_error = 0xfffd

abbrev pub utf_max : ℕ
utf_max = 4

abbrev pub is_continuation : ℕ → Bool
is_continuation c = leb 0x80 c && leb c 0xbf

-- How many bytes a lead byte announces; 1 for ASCII and for a byte that leads nothing.
unfoldable pub announced : ℕ → ℕ
announced c =
    if leb 0xc2 c && leb c 0xdf
    then 2
    else if leb 0xe0 c && leb c 0xef
    then 3
    else if leb 0xf0 c && leb c 0xf4
    then 4
    else 1

-- Whether a byte may stand second behind a lead byte.
unfoldable pub accepts : ℕ → ℕ → Bool
accepts lead c =
    leb (if lead == 0xe0 then 0xa0 else if lead == 0xf0 then 0x90 else 0x80) c
    && leb c (if lead == 0xed then 0x9f else if lead == 0xf4 then 0x8f else 0xbf)

-- `FullRune`: bytes that cannot become a character are full too.
unfoldable pub full_rune : List ℕ → Bool
full_rune [] = false
full_rune (a ∷ []) = leb (announced a) 1
full_rune (a ∷ b ∷ []) = leb (announced a) 2 || not (accepts a b)
full_rune (a ∷ b ∷ c ∷ []) = leb (announced a) 3 || not (accepts a b) || not (is_continuation c)
full_rune (a ∷ b ∷ c ∷ d ∷ s) = true

-- `DecodeRune`: the character and its bytes; the error and 1 for bytes that are none.
unfoldable pub decode_rune : List ℕ → ℕ × ℕ
decode_rune [] = (rune_error, 0)
decode_rune (a ∷ s) =
    let second = get_or s 0 0 in
    let third = get_or s 1 0 in
    let fourth = get_or s 2 0 in
    let n = announced a in
    if ltb a 0x80
    then (a, 1)
    else if (n == 2) && accepts a second
    then ((a - 0xc0) * 64 + (second - 0x80), 2)
    else if (n == 3) && accepts a second && is_continuation third
    then ((a - 0xe0) * 64 * 64 + (second - 0x80) * 64 + (third - 0x80), 3)
    else if (n == 4) && accepts a second && is_continuation third && is_continuation fourth
    then (
      (a - 0xf0) * 64 * 64 * 64 + (second - 0x80) * 64 * 64 + (third - 0x80) * 64 + (fourth - 0x80),
      4,
    )
    else (rune_error, 1)

-- `couldComplete`.
unfoldable pub could_complete : List ℕ → Bool
could_complete [] = true
could_complete (c ∷ s) =
    let want =
      if ltb c 0x80
      then 1
      else if leb 0xc2 c && leb c 0xdf
      then 2
      else if leb 0xe0 c && leb c 0xef
      then 3
      else if leb 0xf0 c && leb c 0xf4
      then 4
      else 0 in
    ltb (length (c ∷ s)) want
