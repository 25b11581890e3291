-- ===== src/Parser/Safety/Drawing.antt =====
-- internal/vt/grid/grid.go: drawing, line feeds and scrolling on a terminal of at least two columns.
use gozellij.Prelude.{
  List-cases, ℕ, zero, suc, ◌+◌, ◌-◌, ◌≤◌, ◌≡◌, refl, sym, subst, ◌∙◌, inl, inr, Bool, true, false,
  not, ◌&&◌, ◌||◌, Option, none, some, List, [], ◌∷◌, arith, ltb, leb, ◌==◌, if◌then◌else◌,
  Bool-cases, if_elim, get_or, set,
}
use gozellij.Grid.Term.{Term}
use gozellij.Parser.Safety.{Ready, Runs, Kept, Kept-trans, Kept-Ready}
use gozellij.Grid.Scroll.{
  remember, scroll_up, scroll_down, line_feed, wrap_line, scroll_up_one, scroll_down_one, at_col,
}
use gozellij.Grid.Draw.{
  shift_right, make_room, write_cells, advance, put_string, combine, put, advanced, row_of,
  back_to_content,
}
use gozellij.Grid.Cell.{Cell, space}
use gozellij.Grid.Shape.Scrolling.{
  scroll_up-WellFormed, scroll_down-WellFormed, line_feed-WellFormed,
}
use gozellij.Grid.Shape.Drawing.{prepared, put_string_lem, put_string-prepared}
use gozellij.Grid.Shape.Rows.{combine-WellFormed}

remember-Kept : (t : Term) (line : List Cell) (w : Bool) (u : ℕ) → Kept t (remember t line w u)
unfolding remember
remember-Kept t line w u =
    if_elim (Kept t) t.on_alt t _ (λ _. (refl, refl, refl, refl)) (λ _. (refl, refl, refl, refl))

scroll_up-Kept : (n : ℕ) (t : Term) → Kept t (scroll_up n t)
unfolding scroll_up scroll_up_one
scroll_up-Kept zero t = (refl, refl, refl, refl)
scroll_up-Kept (suc n) t =
    Kept-trans t (scroll_up_one t) (scroll_up n (scroll_up_one t))
      (remember-Kept t (get_or t.cells t.top []) (get_or t.wrapped t.top false)
        (get_or t.used t.top 0))
      (scroll_up-Kept n (scroll_up_one t))

scroll_down-Kept : (n : ℕ) (t : Term) → Kept t (scroll_down n t)
unfolding scroll_down scroll_down_one
scroll_down-Kept zero t = (refl, refl, refl, refl)
scroll_down-Kept (suc n) t = scroll_down-Kept n (scroll_down_one t)

line_feed-Kept : (t : Term) → Kept t (line_feed t)
unfolding line_feed
line_feed-Kept t =
    if_elim (Kept t) (t.cur.row == t.bottom) (scroll_up 1 t) _ (λ _. scroll_up-Kept 1 t)
      (λ _.
        if_elim (Kept t) (ltb t.cur.row (t.rows - 1)) _ t (λ _. (refl, refl, refl, refl))
          (λ _. (refl, refl, refl, refl)))

wrap_line-Kept : (t : Term) → Kept t (wrap_line t)
unfolding wrap_line
wrap_line-Kept t =
    line_feed-Kept (at_col (record t { wrapped = set t.wrapped t.cur.row true; pend = false }) 0)

shift_right-Kept : (t : Term) (row col n : ℕ) → Kept t (shift_right t row col n)
unfolding shift_right
shift_right-Kept t row col n =
    if_elim (Kept t) ((n == 0) || leb t.cols col) t _ (λ _. (refl, refl, refl, refl))
      (λ _. (refl, refl, refl, refl))

make_room-Kept : (t : Term) (width : ℕ) → Kept t (make_room t width)
unfolding make_room
make_room-Kept t width =
    let t' = if t.pend then wrap_line t else t in
    let k =
      if_elim (Kept t) t.pend (wrap_line t) t (λ _. wrap_line-Kept t)
        (λ _. (refl, refl, refl, refl)) in
    if_elim (Kept t) (ltb t'.cols (t'.cur.col + width)) _ t'
      (λ _.
        if_elim (Kept t) t'.awm (wrap_line t') _
          (λ _. Kept-trans t t' (wrap_line t') k (wrap_line-Kept t')) (λ _. k))
      (λ _. k)

write_cells-Kept :
    (t u : Term) (content : List ℕ) (width : ℕ) → write_cells t content width ≡ some u → Kept t u
unfolding write_cells
write_cells-Kept t u content width e = ground arith

advance-Kept : (t : Term) (width : ℕ) → Kept t (advance t width)
unfolding advance
advance-Kept t width =
    if_elim (Kept t) (leb t.cols (t.cur.col + width)) _ _ (λ _. (refl, refl, refl, refl))
      (λ _. (refl, refl, refl, refl))

prepared-Kept : (t : Term) (width : ℕ) → Kept t (prepared t width)
unfolding prepared
prepared-Kept t width =
    let t' = make_room t width in
    if_elim (Kept t) t'.irm (shift_right t' t'.cur.row t'.cur.col width) t'
      (λ _.
        Kept-trans t t' (shift_right t' t'.cur.row t'.cur.col width) (make_room-Kept t width)
          (shift_right-Kept t' t'.cur.row t'.cur.col width))
      (λ _. make_room-Kept t width)

advanced-Kept :
    (t u : Term) (width : ℕ) (o : Option Term)
    → ((w : Term) → o ≡ some w → Kept t w)
    → advanced width o ≡ some u
    → Kept t u
advanced-Kept t u width none k e = cc
advanced-Kept t u width (some w) k e =
    subst (Kept t) {x = advance w width} {y = u} (cc)
      (Kept-trans t w (advance w width) (k w refl) (advance-Kept w width))

put_string-Kept :
    (t u : Term) (content : List ℕ) (width : ℕ) → put_string t content width ≡ some u → Kept t u
put_string-Kept t u content width e =
    advanced-Kept t u width (write_cells (prepared t width) content width)
      (λ w e'.
        Kept-trans t (prepared t width) w (prepared-Kept t width)
          (write_cells-Kept (prepared t width) w content width e'))
      (sym (put_string-prepared t content width) ∙ e)

combine-Kept : (t : Term) (rune : ℕ) → Kept t (combine t rune)
unfolding combine
combine-Kept t rune = elim (Bool-cases ((t.cur.col == 0) && not t.pend)) [
  | inl e ↦ rw e (refl, refl, refl, refl)
  | inr e ↦ rw e (elim (List-cases (get_or line col space).content) [
    | inl none_there ↦ rw (none_there, combine) (refl, refl, refl, refl)
    | inr (c, cs, there) ↦ rw (there, combine) (refl, refl, refl, refl)
  ])
]
  where
    line : List Cell
    line = row_of t t.cur.row

    col : ℕ
    col = back_to_content line (if t.pend then t.cols - 1 else t.cur.col - 1)

pub put_string-Runs :
    (t : Term) (content : List ℕ) (width : ℕ)
    → Ready t
    → width ≤ 2
    → Runs (put_string t content width)
put_string-Runs t content width r h = elim (put_string_lem t content width r.shape) [
  | inl (_, u, e, v) ↦ (u, e, Kept-Ready u r v (put_string-Kept t u content width e))
  | inr (wide, _) ↦ ground (arith, r.wide)
]

combine-Ready : (t : Term) (rune : ℕ) → Ready t → Ready (combine t rune)
combine-Ready t rune r =
    Kept-Ready (combine t rune) r (combine-WellFormed t rune r.shape) (combine-Kept t rune)

pub put-Runs : (t : Term) (rune width : ℕ) → Ready t → width ≤ 2 → Runs (put t rune width)
unfolding put
put-Runs t rune width r h =
    if_elim Runs (width == 0) (some (combine t rune)) _
      (λ _. (combine t rune, refl, combine-Ready t rune r))
      (λ _. put_string-Runs t (rune ∷ []) width r h)

pub scroll_up-Ready : (n : ℕ) (t : Term) → Ready t → Ready (scroll_up n t)
scroll_up-Ready n t r =
    Kept-Ready (scroll_up n t) r (scroll_up-WellFormed n t r.shape) (scroll_up-Kept n t)

pub scroll_down-Ready : (n : ℕ) (t : Term) → Ready t → Ready (scroll_down n t)
scroll_down-Ready n t r =
    Kept-Ready (scroll_down n t) r (scroll_down-WellFormed n t r.shape) (scroll_down-Kept n t)

pub line_feed-Ready : (t : Term) → Ready t → Ready (line_feed t)
line_feed-Ready t r = Kept-Ready (line_feed t) r (line_feed-WellFormed t r.shape) (line_feed-Kept t)
