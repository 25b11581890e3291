-- ===== src/Grid/Shape/Scrolling.antt =====
-- internal/vt/grid/grid.go: scrolling and wrapping keep the shape.
use gozellij.Prelude.{
  All, All-set, All-take, All-drop, All-copy_at, All-get_or, ℕ, zero, suc, ◌+◌, ◌-◌, ◌<◌, ◌≡◌, refl,
  ◌∙◌, inl, inr, Bool, true, false, List, [], arith, ltb, ◌==◌, Bool-cases, length, get_or, set,
  drop, length-copy_at, length-set, copy_at, slice, ltb→lt,
}
use gozellij.Grid.Term.{Term}
use gozellij.Grid.Shape.{Fits, WellFormed, Cell}
use gozellij.Grid.Scroll.{
  shift_up, shift_down, remember, scroll_up_one, scroll_up, scroll_down, line_feed, wrap_line,
  scroll_down_one,
}
use gozellij.Grid.Cell.{Cursor, blank_row, length-blank_row}
use gozellij.Grid.History.{HistRing, push}

module _ {ℓ} {A : Type ℓ} where
  length-shift_up :
      (xs : List A) (top bottom : ℕ) (v : A) → length (shift_up xs top bottom v) ≡ length xs
  unfolding shift_up
  length-shift_up xs top bottom v =
      length-set (copy_at xs top (slice xs (top + 1) (bottom + 1))) bottom v
      ∙ length-copy_at xs top (slice xs (top + 1) (bottom + 1))

  length-shift_down :
      (xs : List A) (top bottom : ℕ) (v : A) → length (shift_down xs top bottom v) ≡ length xs
  unfolding shift_down
  length-shift_down xs top bottom v =
      length-set (copy_at xs (top + 1) (slice xs top bottom)) top v
      ∙ length-copy_at xs (top + 1) (slice xs top bottom)

  All-slice {κ} : (P : A → Type κ) (xs : List A) (i j : ℕ) → All P xs → All P (slice xs i j)
  All-slice P xs i j a = All-take P (j - i) (drop i xs) (All-drop P i xs a)

  All-shift_up {κ} :
      (P : A → Type κ) (xs : List A) (top bottom : ℕ) (v : A)
      → All P xs
      → P v
      → All P (shift_up xs top bottom v)
  unfolding shift_up
  All-shift_up P xs top bottom v a p =
      All-set P (copy_at xs top (slice xs (top + 1) (bottom + 1))) bottom v
        (All-copy_at P xs top (slice xs (top + 1) (bottom + 1)) a
          (All-slice P xs (top + 1) (bottom + 1) a))
        p

  All-shift_down {κ} :
      (P : A → Type κ) (xs : List A) (top bottom : ℕ) (v : A)
      → All P xs
      → P v
      → All P (shift_down xs top bottom v)
  unfolding shift_down
  All-shift_down P xs top bottom v a p =
      All-set P (copy_at xs (top + 1) (slice xs top bottom)) top v
        (All-copy_at P xs (top + 1) (slice xs top bottom) a (All-slice P xs top bottom a)) p

pub top_row : (t : Term) → WellFormed t → length (get_or t.cells t.top []) ≡ t.cols
top_row t v =
    All-get_or (λ l. length l ≡ t.cols) t.cells t.top [] v.live.row_len
      (omega (arith, v.live.rows_len, v.region, v.region_on))

pub shift_up-Fits :
    (t : Term) (line : List Cell)
    → length line ≡ t.cols
    → WellFormed t
    → Fits t.cols t.rows
        (shift_up t.cells t.top t.bottom line)
        (shift_up t.wrapped t.top t.bottom false)
        (shift_up t.used t.top t.bottom 0)
shift_up-Fits t line e v = record {
  rows_len = length-shift_up t.cells t.top t.bottom line ∙ v.live.rows_len;
  row_len = All-shift_up _ t.cells t.top t.bottom line v.live.row_len e;
  wrapped_len = length-shift_up t.wrapped t.top t.bottom false ∙ v.live.wrapped_len;
  used_len = length-shift_up t.used t.top t.bottom 0 ∙ v.live.used_len;
}

pub shift_down-Fits :
    (t : Term)
    → WellFormed t
    → Fits t.cols t.rows
        (shift_down t.cells t.top t.bottom (blank_row t.cols))
        (shift_down t.wrapped t.top t.bottom false)
        (shift_down t.used t.top t.bottom 0)
shift_down-Fits t v = record {
  rows_len = length-shift_down t.cells t.top t.bottom (blank_row t.cols) ∙ v.live.rows_len;
  row_len =
      All-shift_down _ t.cells t.top t.bottom (blank_row t.cols) v.live.row_len
        (length-blank_row t.cols);
  wrapped_len = length-shift_down t.wrapped t.top t.bottom false ∙ v.live.wrapped_len;
  used_len = length-shift_down t.used t.top t.bottom 0 ∙ v.live.used_len;
}

-- A new grid of the same size, and any scrollback.
pub regrid-WellFormed :
    (t : Term) (cells : List (List Cell)) (wrapped : List Bool) (used : List ℕ) (h : HistRing)
    → Fits t.cols t.rows cells wrapped used
    → WellFormed t
    → WellFormed (record t { cells = cells; wrapped = wrapped; used = used; hist = h })
regrid-WellFormed t cells wrapped used h f v = record {
  cols_pos = v.cols_pos;
  rows_pos = v.rows_pos;
  live = f;
  cur_row = v.cur_row;
  cur_col = v.cur_col;
  region = v.region;
  region_on = v.region_on;
  tabs_len = v.tabs_len;
  hidden = v.hidden;
}

remember_lem :
    (t : Term) (line : List Cell) (w : Bool) (u : ℕ)
    → (h : HistRing) × (remember t line w u ≡ record t { hist = h })
unfolding remember
remember_lem t line w u = elim (Bool-cases t.on_alt) [
  | inl e ↦ (t.hist, rw e refl)
  | inr e ↦ (push t.hist (record { cells = line; wrapped = w; used = u }), ground arith)
]

scroll_up_one-WellFormed : (t : Term) → WellFormed t → WellFormed (scroll_up_one t)
unfolding scroll_up_one
scroll_up_one-WellFormed t v =
    let line = get_or t.cells t.top [] in
    let (h, e) = remember_lem t line (get_or t.wrapped t.top false) (get_or t.used t.top 0) in
    rw e (
      regrid-WellFormed t _ _ _ h
        (shift_up-Fits t (blank_row (length line)) (length-blank_row _ ∙ top_row t v) v) v)

pub scroll_up-WellFormed : (n : ℕ) (t : Term) → WellFormed t → WellFormed (scroll_up n t)
unfolding scroll_up
scroll_up-WellFormed zero t v = v
scroll_up-WellFormed (suc n) t v =
    scroll_up-WellFormed n (scroll_up_one t) (scroll_up_one-WellFormed t v)

pub scroll_down-WellFormed : (n : ℕ) (t : Term) → WellFormed t → WellFormed (scroll_down n t)
unfolding scroll_down scroll_down_one
scroll_down-WellFormed zero t v = v
scroll_down-WellFormed (suc n) t v =
    scroll_down-WellFormed n (scroll_down_one t)
      (unfold scroll_down_one in regrid-WellFormed t _ _ _ t.hist (shift_down-Fits t v) v)

-- The cursor elsewhere on the screen, waiting or not.
pub moved-WellFormed :
    (t : Term) (c : Cursor) (p : Bool)
    → c.row < t.rows
    → c.col < t.cols
    → WellFormed t
    → WellFormed (record t { cur = c; pend = p })
moved-WellFormed t c p h k v = record {
  cols_pos = v.cols_pos;
  rows_pos = v.rows_pos;
  live = v.live;
  cur_row = h;
  cur_col = k;
  region = v.region;
  region_on = v.region_on;
  tabs_len = v.tabs_len;
  hidden = v.hidden;
}

pub line_feed-WellFormed : (t : Term) → WellFormed t → WellFormed (line_feed t)
unfolding line_feed
line_feed-WellFormed t v = elim (Bool-cases (t.cur.row == t.bottom)) [
  | inl e ↦ rw e (scroll_up-WellFormed 1 t v)
  | inr e ↦ rw e (elim (Bool-cases (ltb t.cur.row (t.rows - 1))) [
    | inl f ↦ rw f (
        moved-WellFormed t (record (t.cur) { row = t.cur.row + 1 }) t.pend
          (omega (arith, ltb→lt t.cur.row (t.rows - 1) f)) v.cur_col v)
    | inr f ↦ rw f v
  ])
]

pub wrap_line-WellFormed : (t : Term) → WellFormed t → WellFormed (wrap_line t)
unfolding wrap_line
wrap_line-WellFormed t v = line_feed-WellFormed _ (
    moved-WellFormed (record t { wrapped = set t.wrapped t.cur.row true }) _ false v.cur_row
      v.cols_pos
      (regrid-WellFormed t t.cells (set t.wrapped t.cur.row true) t.used t.hist
        (record {
          rows_len = v.live.rows_len;
          row_len = v.live.row_len;
          wrapped_len = length-set t.wrapped t.cur.row true ∙ v.live.wrapped_len;
          used_len = v.live.used_len;
        })
        v))
