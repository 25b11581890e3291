-- ===== src/Width.antt =====
-- internal/vt/width.go: how many columns a character or a text occupies.
--
-- A text is its list of code points. The categories Mn, Me and Cf of the package unicode are an
-- argument, `combining`.
pub mod Truncate
use gozellij.Prelude.{
  ℕ, ◌+◌, Bool, true, false, ◌&&◌, ◌||◌, List, [], ◌∷◌, leb, ltb, ◌==◌, if◌then◌else◌,
}

-- `wideRanges`.
abbrev pub wide_ranges : List (ℕ × ℕ)
wide_ranges =
    (0x1100, 0x115F)
    ∷ (0x2E80, 0x303E)
    ∷ (0x3041, 0x33FF)
    ∷ (0x3400, 0x4DBF)
    ∷ (0x4E00, 0x9FFF)
    ∷ (0xA000, 0xA4CF)
    ∷ (0xAC00, 0xD7A3)
    ∷ (0xF900, 0xFAFF)
    ∷ (0xFE10, 0xFE19)
    ∷ (0xFE30, 0xFE6F)
    ∷ (0xFF00, 0xFF60)
    ∷ (0xFFE0, 0xFFE6)
    ∷ (0x1F300, 0x1F64F)
    ∷ (0x1F900, 0x1F9FF)
    ∷ (0x20000, 0x2FFFD)
    ∷ (0x30000, 0x3FFFD)
    ∷ []

unfoldable pub in_ranges : List (ℕ × ℕ) → ℕ → Bool
in_ranges [] r = false
in_ranges ((lo, hi) ∷ ranges) r = (leb lo r && leb r hi) || in_ranges ranges r

unfoldable pub is_wide : ℕ → Bool
unfolding in_ranges
is_wide r = in_ranges wide_ranges r

module _ (combining : ℕ → Bool) where
  unfoldable pub rune_width : ℕ → ℕ
  rune_width r =
      if r == 0
      then 0
      else if ltb r 32 || (leb 0x7f r && ltb r 0xa0)
      then 0
      else if combining r
      then 0
      else if is_wide r
      then 2
      else 1

  unfoldable pub string_width : List ℕ → ℕ
  string_width [] = 0
  string_width (r ∷ s) = rune_width r + string_width s

  -- The loop of `TruncateToWidth`, with `used` columns taken.
  unfoldable pub truncate_from : ℕ → ℕ → List ℕ → List ℕ
  truncate_from used w [] = []
  truncate_from used w (r ∷ s) =
      let rest = truncate_from (used + rune_width r) w s in
      if ltb w (used + rune_width r) then [] else r ∷ rest

  -- A width of 0 stands for every one that is not positive.
  unfoldable pub truncate_to_width : List ℕ → ℕ → List ℕ
  truncate_to_width s w = if w == 0 then [] else truncate_from 0 w s
