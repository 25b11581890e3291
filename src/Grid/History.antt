-- ===== src/Grid/History.antt =====
-- internal/vt/grid/history.go: the scrollback, a ring of the lines that scrolled off.
--
-- `push` copies the row that it is given, so a line in the ring is a value of its own; which
-- backing array a copy lands in never shows. A read out of range would be an empty line.
pub mod Pushing
pub mod Refine
use gozellij.Prelude.{
  same_text, All, All-map, List-cases, map_get, map_set, map_delete, map_get-map_set,
  map_get-map_delete, ℕ, zero, suc, ◌+◌, ◌-◌, ◌*◌, ◌/◌, ◌%◌, ◌^◌, ◌≤◌, ◌<◌, min, max, ◌≡◌, refl,
  sym, ap, ap₂, subst, ◌∙◌, ◌≡⟨◌⟩◌, ◌∎, ◌≢◌, ◌↔◌, ◌⊎◌, inl, inr, Bool, true, false, not, ◌&&◌, ◌||◌,
  Option, none, some, List, [], ◌∷◌, ◌++◌, map, reverse, append-nil, append_assoc, arith, ltb, leb,
  ◌==◌, if◌then◌else◌, Bool-cases, Option-cases, length, get_elem?, get_or, set, take, drop,
  replicate, length-replicate, length-copy, length-copy_at, get_or-drop, get_or-take,
  get_or-append_left, get_or-append_right, get_or-copy_new, get_or-copy_old, get_or-copy_at_before,
  get_or-copy_at_in, get_or-copy_at_behind, get_or_ext, mod_cases, mod_step, mod_small, copy,
  copy_at, slice, keep_last, length-append, length-take, length-drop, take-append-drop, ltb→lt,
  lt→ltb, leb→le, le→leb, lt→leb, le→ltb, ==_iff, ==_ne,
}
use gozellij.Grid.Cell.{Cell}

pub record HistLine : Type 0 where
  pub cells : List Cell
  pub wrapped : Bool
  pub used : ℕ

abbrev pub no_line : HistLine
no_line = record { cells = []; wrapped = false; used = 0 }

pub record HistRing : Type 0 where
  pub lines : List HistLine
  pub start : ℕ
  pub n : ℕ
  pub limit : ℕ

-- The zero value.
abbrev pub no_history : HistRing
no_history = record { lines = []; start = 0; n = 0; limit = 0 }

-- `at`: a line by age, 0 being the oldest.
unfoldable pub line_at : HistRing → ℕ → HistLine
line_at h i = get_or h.lines ((h.start + i) % length h.lines) no_line

unfoldable pub push : HistRing → HistLine → HistRing
push h line =
    if h.limit == 0
    then h
    else if ltb (length h.lines) h.limit
    then record h { lines = h.lines ++ line ∷ []; n = length h.lines + 1 }
    else record {
      lines = set h.lines h.start line;
      start = (h.start + 1) % h.limit;
      n = h.limit;
      limit = h.limit;
    }

unfoldable pub reset : HistRing → HistRing
reset h = record h { lines = []; start = 0; n = 0 }

-- The lines from the one of age `i` on, `k` of them: the loop of `setLimit` and of `Scrollback`.
unfoldable pub lines_from : HistRing → ℕ → ℕ → List HistLine
lines_from h i zero = []
lines_from h i (suc k) = line_at h i ∷ lines_from h (i + 1) k

unfoldable pub set_limit : HistRing → ℕ → HistRing
set_limit h n =
    let keep = min n h.n in
    if n == h.limit
    then h
    else record { lines = lines_from h (h.n - keep) keep; start = 0; n = keep; limit = n }

-- All of them, oldest first.
unfoldable pub scrollback : HistRing → List HistLine
scrollback h = lines_from h 0 h.n
