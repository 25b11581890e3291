-- ===== src/Layout/Composed.antt =====
-- internal/vt/layout/layout.go: what a composed screen shows.
use gozellij.Prelude.{[], ◌∷◌, ℕ, ◌<◌, ◌+◌, length, get_or, List}
use gozellij.Layout.{Pane, Cell}
use gozellij.Layout.Panes.{Misses}

-- A cell of a pane that is on the screen, that the pane's terminal has, and that is not in the
-- pane's last column, where half a wide character would be blanked.
pub record IsInside (cols rows : ℕ) (p : Pane) (j i : ℕ) : Type 0 where
  pub in_rows : j < p.rect.rows
  pub in_cols : i + 1 < p.rect.cols
  pub on_rows : p.rect.row + j < rows
  pub on_cols : p.rect.col + i < cols
  pub has_row : j < length p.grid
  pub has_col : i < length (get_or p.grid j [])

-- Panes that are not empty and leave a cell alone.
abbrev pub AllMiss : ℕ → ℕ → List Pane → Type 0
AllMiss y x [] = Unit {0}
AllMiss y x (p ∷ ps) = (0 < p.rect.cols) × Misses y x p × AllMiss y x ps
