-- ===== src/Layout/Cursors.antt =====
-- internal/vt/layout/layout.go: where the cursor of a composed screen stands.
use gozellij.Prelude.{
  ℕ, ◌+◌, ◌-◌, ◌≤◌, ◌<◌, min, ◌≡◌, refl, ◌∙◌, true, false, List, [], ◌∷◌, ◌++◌, arith,
}
use gozellij.Layout.{Frame, draw_panes, compose, Pane, draw_pane, pane_cursor}
use gozellij.Grid.Move.{clamp}

abbrev pub AllUnfocused : List Pane → Type 0
AllUnfocused [] = Unit {0}
AllUnfocused (p ∷ ps) = (p.focused ≡ false) × AllUnfocused ps

cur-draw_panes_unfocused :
    (f : Frame) (ps : List Pane) → AllUnfocused ps → (draw_panes f ps).cur ≡ f.cur
unfolding draw_panes draw_pane
cur-draw_panes_unfocused f [] h = refl
cur-draw_panes_unfocused f (p ∷ ps) (u, more) =
    cur-draw_panes_unfocused (draw_pane f p) ps more ∙ ground arith

cur-draw_panes :
    (f : Frame) (before : List Pane) (p : Pane) (after : List Pane)
    → p.focused ≡ true
    → AllUnfocused after
    → (draw_panes f (before ++ p ∷ after)).cur ≡ pane_cursor f p
unfolding draw_panes draw_pane pane_cursor
cur-draw_panes f [] p after h u = cur-draw_panes_unfocused (draw_pane f p) after u ∙ ground arith
cur-draw_panes f (q ∷ before) p after h u = cur-draw_panes (draw_pane f q) before p after h u

within : (v lo hi : ℕ) → lo ≤ hi → (lo ≤ clamp v lo hi) × (clamp v lo hi ≤ hi)
unfolding clamp
within v lo hi h = omega arith

-- The cursor of a composed screen is that of the last pane that is focused, as visible as there and
-- moved by the pane's corner, or at the last row or column that the pane has on the screen where
-- that is beyond it. So it stands both in that pane and on the screen, wherever the pane's own
-- terminal has it. The pane is not empty and its corner is on the screen.
pub compose_cursor :
    (cols rows : ℕ) (before : List Pane) (p : Pane) (after : List Pane)
    → p.focused ≡ true
    → AllUnfocused after
    → 0 < p.rect.rows
    → 0 < p.rect.cols
    → p.rect.row < rows
    → p.rect.col < cols
    → let c = (compose cols rows (before ++ p ∷ after)).cur in
      (c.visible ≡ p.cursor.visible)
      × (c.row ≡ min (p.rect.row + p.cursor.row) (min (p.rect.row + p.rect.rows - 1) (rows - 1)))
      × (c.col ≡ min (p.rect.col + p.cursor.col) (min (p.rect.col + p.rect.cols - 1) (cols - 1)))
      × ((p.rect.row ≤ c.row) × (c.row < p.rect.row + p.rect.rows) × (c.row < rows))
      × ((p.rect.col ≤ c.col) × (c.col < p.rect.col + p.rect.cols) × (c.col < cols))
unfolding compose pane_cursor
compose_cursor cols rows before p after h u pr pc r c =
    let in_row =
      within (p.cursor.row + p.rect.row) p.rect.row (min (p.rect.row + p.rect.rows - 1) (rows - 1))
        (omega arith) in
    let in_col =
      within (p.cursor.col + p.rect.col) p.rect.col (min (p.rect.col + p.rect.cols - 1) (cols - 1))
        (omega arith) in
    rw (cur-draw_panes _ before p after h u) (
      refl,
      unfold clamp in omega arith,
      unfold clamp in omega arith,
      (in_row.0, omega (arith, in_row), omega (arith, in_row)),
      (in_col.0, omega (arith, in_col), omega (arith, in_col)),
    )
