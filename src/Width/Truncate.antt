-- ===== src/Width/Truncate.antt =====
-- internal/vt/width.go: no character is wider than two columns, and what a truncation keeps.
use gozellij.Prelude.{ℕ, ◌≤◌, Bool, arith}
use gozellij.Width.{rune_width}

module _ (combining : ℕ → Bool) where
  pub rune_width-le : (r : ℕ) → rune_width combining r ≤ 2
  unfolding rune_width
  rune_width-le r = ground arith
