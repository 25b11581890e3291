-- ===== src/Parser/Safety.antt =====
-- internal/vt/grid/parser.go: a terminal on which no sequence runs out of range, and what keeps it.
pub mod Drawing
pub mod Editing
pub mod Commands
pub mod Modes
pub mod Sequences
pub mod Strings
pub mod Feeding
pub mod Ground
pub mod Streams
use gozellij.Prelude.{
  same_text, All, All-map, All-set, All-take, All-drop, All-copy, All-append, All-copy_at,
  All-replicate, All-get_or, List-cases, map_get, map_set, map_delete, map_get-map_set,
  map_get-map_delete, ℕ, zero, suc, ◌+◌, ◌-◌, ◌*◌, ◌/◌, ◌%◌, ◌^◌, ◌≤◌, ◌<◌, min, max, ◌≡◌, refl,
  sym, ap, ap₂, subst, ◌∙◌, ◌≡⟨◌⟩◌, ◌∎, ◌≢◌, ◌↔◌, ◌⊎◌, inl, inr, Bool, true, false, not, ◌&&◌, ◌||◌,
  Option, none, some, List, [], ◌∷◌, ◌++◌, map, reverse, append-nil, append_assoc, arith, ltb, leb,
  ◌==◌, if◌then◌else◌, Bool-cases, if_elim, ℕ_discrete, dec_le, dec_lt, pred, Option-cases, length,
  get_elem?, get_or, set, take, drop, replicate, length-replicate, length-copy, length-copy_at,
  get_or-drop, get_or-take, get_or-append_left, get_or-append_right, get_or-copy_new,
  get_or-copy_old, get_or-copy_at_before, get_or-copy_at_in, get_or-copy_at_behind, get_or_ext,
  get_or-set_self, get_or-set_ne, length-set, length-map, mod_cases, mod_step, mod_small, copy,
  copy_at, slice, keep_last, length-append, length-take, length-drop, take-append-drop, ltb→lt,
  lt→ltb, leb→le, le→leb, lt→leb, le→ltb, ==_iff, ==_ne,
}
use gozellij.Grid.Term.{Term, new}
use gozellij.Grid.Shape.{WellFormed, new-WellFormed}
use gozellij.Grid.Cell.{Cursor}
use gozellij.Grid.Shape.Scrolling.{moved-WellFormed}

-- A well-formed terminal of at least two columns, with a position on the screen in the slot of
-- mode 1048, and with no resize to be made up for.
pub record Ready (t : Term) : Type 0 where
  pub shape : WellFormed t
  pub wide : 2 ≤ t.cols
  pub slot_row : t.alt_saved.row < t.rows
  pub slot_col : t.alt_saved.col < t.cols
  pub on_time : t.alt_pending ≡ false

-- An operation that ends, and leaves such a terminal.
abbrev pub Runs : Option Term → Type 0
Runs o = (u : Term) × (o ≡ some u) × Ready u

-- What most operations leave alone.
abbrev pub Kept : Term → Term → Type 0
Kept t u =
    (u.cols ≡ t.cols)
    × (u.rows ≡ t.rows)
    × (u.alt_saved ≡ t.alt_saved)
    × (u.alt_pending ≡ t.alt_pending)

pub Kept-trans : (t u w : Term) → Kept t u → Kept u w → Kept t w
Kept-trans t u w (a, b, c, d) (a', b', c', d') = (a' ∙ a, b' ∙ b, c' ∙ c, d' ∙ d)

pub Kept-Ready : {t : Term} (u : Term) → Ready t → WellFormed u → Kept t u → Ready u
Kept-Ready u r v (c, w, s, p) = record {
  shape = v;
  wide = omega (arith, c, r.wide);
  slot_row = omega (arith, w, ap (λ x. x.row) s, r.slot_row);
  slot_col = omega (arith, c, ap (λ x. x.col) s, r.slot_col);
  on_time = p ∙ r.on_time;
}

pub runs : (o : Option Term) (u : Term) → o ≡ some u → Ready u → Runs o
runs o u e r = (u, e, r)

-- The grid, cursor and region of one terminal with everything else of another.
abbrev pub dressed : Term → Term → Term
dressed t d = record d {
  cols = t.cols;
  rows = t.rows;
  cells = t.cells;
  wrapped = t.wrapped;
  used = t.used;
  cur = t.cur;
  top = t.top;
  bottom = t.bottom;
  tabs = t.tabs;
  on_alt = t.on_alt;
  alt_pending = t.alt_pending;
  alt = t.alt;
  alt_wrapped = t.alt_wrapped;
  alt_used = t.alt_used;
  alt_saved = t.alt_saved;
}

pub dressed-Ready : (t d : Term) → Ready t → Ready (dressed t d)
dressed-Ready t d r =
    Kept-Ready (dressed t d) r
      (record {
        cols_pos = r.shape.cols_pos;
        rows_pos = r.shape.rows_pos;
        live = r.shape.live;
        cur_row = r.shape.cur_row;
        cur_col = r.shape.cur_col;
        region = r.shape.region;
        region_on = r.shape.region_on;
        tabs_len = r.shape.tabs_len;
        hidden = r.shape.hidden;
      })
      (refl, refl, refl, refl)

-- The cursor elsewhere on the screen.
pub moved-Ready :
    (t : Term) (c : Cursor) (p : Bool)
    → c.row < t.rows
    → c.col < t.cols
    → Ready t
    → Ready (record t { cur = c; pend = p })
moved-Ready t c p h k r =
    Kept-Ready (record t { cur = c; pend = p }) r (moved-WellFormed t c p h k r.shape)
      (refl, refl, refl, refl)

pub new-Ready : (cols rows : ℕ) → 2 ≤ cols → Ready (new cols rows)
unfolding new
new-Ready cols rows h = record {
  shape = new-WellFormed cols rows;
  wide = ground arith;
  slot_row = ground arith;
  slot_col = ground arith;
  on_time = refl;
}
