-- ===== src/Parser/Safety/Modes.antt =====
-- internal/vt/grid/parser.go: the private modes keep a terminal on which nothing runs out of range.
use gozellij.Prelude.{
  ℕ, ◌≤◌, ◌<◌, ◌≡◌, refl, ap, inl, inr, Bool, true, false, ◌||◌, none, some, List, [], ◌∷◌, arith,
  ◌==◌, if◌then◌else◌, if_elim, set,
}
use gozellij.Grid.Term.{Term, set_mode}
use gozellij.Grid.Shape.{Fits}
use gozellij.Parser.Safety.{Ready, Runs, Kept, Kept-Ready, dressed-Ready, moved-Ready}
use gozellij.Parser.Csi.{Command}
use gozellij.Parser.Csi
use gozellij.Grid.Resize.{
  enter_alt, come_back, leave_alt, settle, restore_alt_cursor, swap_back, left,
}
use gozellij.Grid.Move.{save_1048, restore_1048}
use gozellij.Parser.Numbers.{Param, params}
use gozellij.Grid.Shape.Switching.{enter_alt-WellFormed, come_back-WellFormed, swap_back-WellFormed}
use gozellij.Parser.Safety.Commands.{note_unknown-Ready}

enter_alt-Ready : (t : Term) (save : Bool) → Ready t → Ready (enter_alt t save)
enter_alt-Ready t save r = record {
  shape = enter_alt-WellFormed t save r.shape;
  wide = unfold enter_alt in if_elim (λ u. 2 ≤ u.cols) t.on_alt t _ (λ _. r.wide) (λ _. r.wide);
  slot_row =
      unfold enter_alt in
      if_elim (λ u. u.alt_saved.row < u.rows) t.on_alt t _ (λ _. r.slot_row)
        (λ _.
          if_elim (λ c. c.row < t.rows) save t.cur t.alt_saved (λ _. r.shape.cur_row)
            (λ _. r.slot_row));
  slot_col =
      unfold enter_alt in
      if_elim (λ u. u.alt_saved.col < u.cols) t.on_alt t _ (λ _. r.slot_col)
        (λ _.
          if_elim (λ c. c.col < t.cols) save t.cur t.alt_saved (λ _. r.shape.cur_col)
            (λ _. r.slot_col));
  on_time =
      unfold enter_alt in
      if_elim (λ u. u.alt_pending ≡ false) t.on_alt t _ (λ _. r.on_time) (λ _. r.on_time);
}

-- The grid that is put away has the size of the screen.
away-Fits :
    (t : Term) → t.on_alt ≡ true → Ready t → Fits t.cols t.rows t.alt t.alt_wrapped t.alt_used
away-Fits t on r = elim r.shape.hidden [
  | inl (off, _) ↦ absurd (ground arith)
  | inr (inl (_, _, f)) ↦ f
  | inr (inr (_, late)) ↦ absurd (ground (arith, r.on_time))
]

come_back-Ready : (t : Term) (restore : Bool) → Ready t → Ready (come_back restore t)
come_back-Ready t restore r =
    Kept-Ready (come_back restore t) r (come_back-WellFormed t restore r.shape) (
      unfold restore_alt_cursor in
      if_elim (λ u. Kept t (record u { pend = false })) restore (restore_alt_cursor t) t
        (λ _. (refl, refl, refl, refl)) (λ _. (refl, refl, refl, refl)))

settle_on_time : (t : Term) → t.alt_pending ≡ false → settle (swap_back t) ≡ some (swap_back t)
unfolding settle swap_back
settle_on_time t h =
    if_elim (λ o. o ≡ some (swap_back t)) t.alt_pending _ _ (λ e. absurd (ground arith)) (λ _. refl)

leave_alt-Runs : (t : Term) (restore : Bool) → Ready t → Runs (leave_alt t restore)
unfolding leave_alt
leave_alt-Runs t restore r =
    if_elim Runs t.on_alt _ (some t)
      (λ on. (
        come_back restore (swap_back t),
        ap (left restore) (settle_on_time t r.on_time),
        come_back-Ready (swap_back t) restore (
            Kept-Ready (swap_back t) r (swap_back-WellFormed t r.on_time (away-Fits t on r) r.shape)
              (unfold swap_back in (refl, refl, refl, refl))),
      ))
      (λ _. (t, refl, r))

save_1048-Ready : (t : Term) → Ready t → Ready (save_1048 t)
unfolding save_1048
save_1048-Ready t r = record {
  shape = record {
    cols_pos = r.shape.cols_pos;
    rows_pos = r.shape.rows_pos;
    live = r.shape.live;
    cur_row = r.shape.cur_row;
    cur_col = r.shape.cur_col;
    region = r.shape.region;
    region_on = r.shape.region_on;
    tabs_len = r.shape.tabs_len;
    hidden = r.shape.hidden;
  };
  wide = r.wide;
  slot_row = r.shape.cur_row;
  slot_col = r.shape.cur_col;
  on_time = r.on_time;
}

restore_1048-Ready : (t : Term) → Ready t → Ready (restore_1048 t)
unfolding restore_1048
restore_1048-Ready t r = moved-Ready t t.alt_saved false r.slot_row r.slot_col r

set_private-Runs :
    (t : Term) (set : Bool) (final n : ℕ) → Ready t → Runs (Csi.set_private t set final n)
unfolding Csi.set_private set_mode
set_private-Runs t set final n r =
    if_elim Runs (n == 25) _ _
      (λ _. (
        _,
        refl,
        moved-Ready t (record (t.cur) { visible = set }) t.pend r.shape.cur_row r.shape.cur_col r,
      ))
      (λ _.
        if_elim Runs ((n == 47) || (n == 1047)) _ _ (λ _. switched false)
          (λ _.
            if_elim Runs (n == 1048) _ _
              (λ _.
                if_elim Runs set _ _ (λ _. (_, refl, save_1048-Ready t r))
                  (λ _. (_, refl, restore_1048-Ready t r)))
              (λ _.
                if_elim Runs (n == 7) _ _
                  (λ _. (_, refl, dressed-Ready t (record t { awm = set }) r))
                  (λ _.
                    if_elim Runs (Csi.is_kept_mode n) _ _
                      (λ _. (_, refl, dressed-Ready t (set_mode t n set) r))
                      (λ _.
                        if_elim Runs (n == 1049) _ _ (λ _. switched true)
                          (λ _. (_, refl, note_unknown-Ready t _ r)))))))
  where
    switched : (save : Bool) → Runs (if set then some (enter_alt t save) else leave_alt t save)
    switched save =
        if_elim Runs set _ _ (λ _. (_, refl, enter_alt-Ready t save r))
          (λ _. leave_alt-Runs t save r)

set_private_param-Runs :
    (t : Term) (set : Bool) (final : ℕ) (n : Param)
    → Ready t
    → Runs (Csi.set_private_param t set final n)
set_private_param-Runs t set final none r = (_, refl, note_unknown-Ready t _ r)
set_private_param-Runs t set final (some n) r = set_private-Runs t set final n r

set_privates-Runs :
    (ps : List Param) (t : Term) (set : Bool) (final : ℕ)
    → Ready t
    → Runs (Csi.set_privates t set final ps)
unfolding Csi.set_privates
set_privates-Runs [] t set final r = (t, refl, r)
set_privates-Runs (n ∷ ps) t set final r =
    let (u, e, q) = set_private_param-Runs t set final n r in
    rw (Csi.set_privates, e) (set_privates-Runs ps u set final q)

pub dispatch_private-Runs :
    (t : Term) (final : ℕ) (ps : List ℕ) → Ready t → Runs (Csi.dispatch_private t final ps)
unfolding Csi.dispatch_private
dispatch_private-Runs t final ps r =
    if_elim Runs ((final == b'h') || (final == b'l')) _ (some t)
      (λ _. set_privates-Runs (params ps) t (final == b'h') final r) (λ _. (t, refl, r))
