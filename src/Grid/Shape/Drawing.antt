-- ===== src/Grid/Shape/Drawing.antt =====
-- internal/vt/grid/grid.go: drawing and erasing keep the shape, and when a character can be drawn.
use gozellij.Prelude.{
  ℕ, ◌+◌, ◌-◌, ◌≤◌, ◌<◌, max, ◌≡◌, refl, ap, ◌∙◌, ◌⊎◌, inl, inr, none, some, List, arith, ltb, leb,
  if◌then◌else◌, if_elim, length, get_or, set, length-set, ltb→lt, lt→ltb, le→ltb, dec_le,
}
use gozellij.Grid.Term.{Term}
use gozellij.Grid.Shape.{WellFormed}
use gozellij.Grid.Draw.{row_of, shift_right, make_room, write_cells, advance, put_string, advanced}
use gozellij.Grid.Shape.Scrolling.{wrap_line-WellFormed, moved-WellFormed}
use gozellij.Grid.Scroll.{wrap_line, at_col}
use gozellij.Grid.Shape.Rows.{
  length-fill_cells, row_len_at, redrawn-WellFormed, used_set, shift_right-WellFormed, SameScreen,
  shift_right_same, wrap_line_same,
}

-- After making room, a character that is no wider than the screen fits where the cursor is.
settle_col : (t : Term) (width : ℕ) → Term
settle_col t width =
    if ltb t.cols (t.cur.col + width)
    then (if t.awm then wrap_line t else at_col t (t.cols - width))
    else t

settle_col-WellFormed :
    (t : Term) (width : ℕ)
    → WellFormed t
    → WellFormed (settle_col t width)
      × ((settle_col t width).cols ≡ t.cols)
      × ((width ≤ t.cols) → (settle_col t width).cur.col + width ≤ t.cols)
unfolding settle_col
settle_col-WellFormed t width v =
    if_elim Good (ltb t.cols (t.cur.col + width)) _ t
      (λ wide.
        if_elim Good t.awm (wrap_line t) (at_col t (t.cols - width))
          (λ _.
            (wrap_line-WellFormed t v, (wrap_line_same t).0, λ h. omega (arith, wrap_line_same t)))
          (λ _. (
            moved-WellFormed t (record (t.cur) { col = t.cols - width }) t.pend v.cur_row
                (omega (arith, v.cur_col, ltb→lt t.cols (t.cur.col + width) wide)) v,
            refl,
            λ h. omega arith,
          )))
      (λ e. (v, refl, λ h. ground arith))
  where
    Good : Term → Type 0
    Good u = WellFormed u × (u.cols ≡ t.cols) × ((width ≤ t.cols) → u.cur.col + width ≤ t.cols)

make_room-WellFormed :
    (t : Term) (width : ℕ)
    → WellFormed t
    → WellFormed (make_room t width)
      × ((make_room t width).cols ≡ t.cols)
      × ((width ≤ t.cols) → (make_room t width).cur.col + width ≤ t.cols)
unfolding make_room settle_col
make_room-WellFormed t width v =
    if_elim Good t.pend (wrap_line t) t
      (λ _.
        let same = wrap_line_same t in
        let (w, c, fits) = settle_col-WellFormed (wrap_line t) width (wrap_line-WellFormed t v) in
        (w, c ∙ same.0, λ h. omega (arith, same.0, fits (omega (arith, same.0)))))
      (λ _. settle_col-WellFormed t width v)
  where
    Good : Term → Type 0
    Good u =
        WellFormed (settle_col u width)
        × ((settle_col u width).cols ≡ t.cols)
        × ((width ≤ t.cols) → (settle_col u width).cur.col + width ≤ t.cols)

-- The writes of a character, where it fits behind the cursor and where it does not.
write_cells-WellFormed :
    (t : Term) (content : List ℕ) (width : ℕ)
    → WellFormed t
    → t.cur.col + max width 1 ≤ t.cols
    → (u : Term) × (write_cells t content width ≡ some u) × WellFormed u × SameScreen t u
unfolding write_cells
write_cells-WellFormed t content width v h =
    rw
      (le→ltb (length (row_of t t.cur.row)) (t.cur.col + max width 1)
        (omega (arith, row_len_at t t.cur.row v v.cur_row)))
      (
        _,
        refl,
        redrawn-WellFormed t t.cur.row _ _
            (length-fill_cells _ (t.cur.col + 1) _ _
              ∙ length-set (row_of t t.cur.row) t.cur.col _
              ∙ row_len_at t t.cur.row v v.cur_row)
            used v,
        (refl, refl, refl, refl),
      )
  where
    used :
        let us =
          if ltb (get_or t.used t.cur.row 0) (t.cur.col + width)
          then set t.used t.cur.row (t.cur.col + width)
          else t.used in
        length us ≡ t.rows
    used =
        if_elim (λ us. length us ≡ t.rows) (ltb (get_or t.used t.cur.row 0) (t.cur.col + width))
          (set t.used t.cur.row (t.cur.col + width)) t.used
          (λ _. used_set t t.cur.row (t.cur.col + width) v) (λ _. v.live.used_len)

write_cells-none :
    (t : Term) (content : List ℕ) (width : ℕ)
    → WellFormed t
    → t.cols < max width 1
    → write_cells t content width ≡ none
unfolding write_cells
write_cells-none t content width v h = rw (
    lt→ltb (length (row_of t t.cur.row)) (t.cur.col + max width 1)
      (omega (arith, row_len_at t t.cur.row v v.cur_row)))

advance-WellFormed : (t : Term) (width : ℕ) → WellFormed t → WellFormed (advance t width)
unfolding advance
advance-WellFormed t width v =
    if_elim WellFormed (leb t.cols (t.cur.col + width)) _ _
      (λ e.
        moved-WellFormed t (record (t.cur) { col = t.cols - 1 }) t.awm v.cur_row
          (omega (arith, v.cols_pos)) v)
      (λ e.
        moved-WellFormed t (record (t.cur) { col = t.cur.col + width }) t.pend v.cur_row
          (ground arith) v)

-- The terminal in which the cells are written.
unfoldable pub prepared : Term → ℕ → Term
prepared t width =
    let t' = make_room t width in if t'.irm then shift_right t' t'.cur.row t'.cur.col width else t'

prepared-WellFormed :
    (t : Term) (width : ℕ)
    → WellFormed t
    → WellFormed (prepared t width)
      × ((prepared t width).cols ≡ t.cols)
      × ((width ≤ t.cols) → (prepared t width).cur.col + width ≤ t.cols)
unfolding prepared
prepared-WellFormed t width v =
    let (w, c, fits) = make_room-WellFormed t width v in
    let t' = make_room t width in
    let same = shift_right_same t' t'.cur.row t'.cur.col width in
    if_elim
      (λ u. WellFormed u × (u.cols ≡ t.cols) × ((width ≤ t.cols) → u.cur.col + width ≤ t.cols))
      t'.irm (shift_right t' t'.cur.row t'.cur.col width) t'
      (λ _. (
        shift_right-WellFormed t' t'.cur.row t'.cur.col width w.cur_row w,
        same.0 ∙ c,
        λ h. omega (arith, ap (λ k. k.col) same.2, fits h),
      ))
      (λ _. (w, c, fits))

pub put_string-prepared :
    (t : Term) (content : List ℕ) (width : ℕ)
    → put_string t content width ≡ advanced width (write_cells (prepared t width) content width)
unfolding put_string prepared
put_string-prepared t content width = refl

-- A character is drawn, and leaves a terminal of the same shape, when it is no wider than the
-- screen; when it is wider, the code writes past the end of the row.
pub put_string_lem :
    (t : Term) (content : List ℕ) (width : ℕ)
    → WellFormed t
    → ((width ≤ t.cols) × (u : Term) × (put_string t content width ≡ some u) × WellFormed u)
      ⊎ ((t.cols < width) × (put_string t content width ≡ none))
put_string_lem t content width v = elim (dec_le width t.cols) [
  | yes h ↦
      let (p, c, fits) = prepared-WellFormed t width v in
      let (u, e, w, _) =
        write_cells-WellFormed (prepared t width) content width p
          (omega (arith, c, fits h, p.cur_col)) in
      inl (
        h,
        advance u width,
        put_string-prepared t content width ∙ ap (advanced width) e,
        advance-WellFormed u width w,
      )
  | no h ↦
      let (p, c, _) = prepared-WellFormed t width v in
      inr (
        omega arith,
        put_string-prepared t content width
            ∙ ap (advanced width)
                (write_cells-none (prepared t width) content width p (omega (arith, c))),
      )
]
