-- ===== src/Output/Buffer.antt =====
-- internal/fabric/output.go: `OutputBuffer`, the recent output of one process and its readers.
--
-- Each method runs under the buffer's lock and is one step. `subs` holds every subscriber that was
-- ever attached; the source's map holds those of them that are `attached`, and its order never
-- shows. Counts of bytes stay below 2 ^ 63, and sizes of terminals are not negative. The disk
-- writer of logfile.go, which `Close` waits for, is left out. The emulator that draws a
-- full-screen program is a parameter, `Emulator`, whose calls return: where it would panic, which is
-- what Grid and Parser are about, the process ends and there is no next state.
pub mod Readers
pub mod Delivery
pub mod Calls
use gozellij.Prelude.{
  same_text, List-cases, map_get, map_set, map_delete, map_get-map_set, map_get-map_delete, ℕ, zero,
  suc, ◌+◌, ◌-◌, ◌*◌, ◌/◌, ◌%◌, ◌^◌, ◌≤◌, ◌<◌, min, max, ◌≡◌, refl, sym, ap, ap₂, subst, ◌∙◌,
  ◌≡⟨◌⟩◌, ◌∎, ◌≢◌, ◌↔◌, ◌⊎◌, inl, inr, Bool, true, false, not, ◌&&◌, ◌||◌, Option, none, some, List,
  [], ◌∷◌, ◌++◌, map, reverse, append-nil, append_assoc, arith, ltb, leb, ◌==◌, if◌then◌else◌,
  Bool-cases, Option-cases, length, get_elem?, get_or, set, take, drop, replicate, length-replicate,
  length-copy, length-copy_at, get_or-drop, get_or-take, get_or-append_left, get_or-append_right,
  get_or-copy_new, get_or-copy_old, get_or-copy_at_before, get_or-copy_at_in, get_or-copy_at_behind,
  get_or_ext, mod_cases, mod_step, mod_small, copy, copy_at, slice, keep_last, length-append,
  length-take, length-drop, take-append-drop, ltb→lt, lt→ltb, leb→le, le→leb, lt→leb, le→ltb,
  ==_iff, ==_ne,
}
use gozellij.Modes.{TermModes, fresh, feed, alt_screen}
use gozellij.Modes
use gozellij.Output.Ring.{Ring, empty, append, default_output_bytes, snapshot}
use gozellij.Output.Subscriber.{Subscriber, close_ch, consumed, offer, receive}

-- What the buffer uses of internal/vt/grid and internal/vt/render.
pub record Emulator : Type 1 where
  pub Screen : Type 0
  pub create : ℕ → ℕ → Screen
  pub set_scrollback : Screen → ℕ → Screen
  pub write : Screen → List ℕ → Screen
  pub take_replies : Screen → Screen
  pub take_colour_asks : Screen → Screen
  pub resize : Screen → ℕ → ℕ → Screen
  pub render : Screen → List ℕ

module _ (E : Emulator) where
  open E use {Screen, create, set_scrollback, take_replies, take_colour_asks, resize, render}

  pub record OutputBuffer : Type 0 where
    pub ring : Ring
    pub written : ℕ
    pub subs : List Subscriber
    pub next_id : ℕ
    pub closed : Bool
    pub modes : TermModes
    pub screen : Option Screen
    pub cols : ℕ
    pub rows : ℕ

  unfoldable pub new_output_buffer : ℕ → OutputBuffer
  new_output_buffer capacity = record {
    ring = empty (if capacity == 0 then default_output_bytes else capacity);
    written = 0;
    subs = [];
    next_id = 0;
    closed = false;
    modes = fresh;
    screen = none;
    cols = 0;
    rows = 0;
  }

  -- The picture that `drawLocked` draws on: the old one, or a new one of the terminal's size.
  unfoldable pub screen_of : OutputBuffer → Screen
  screen_of o = elim o.screen [
    | some s ↦ s
    | none ↦
        if (o.cols == 0) || (o.rows == 0)
        then set_scrollback (create 80 24) 0
        else set_scrollback (create o.cols o.rows) 0
  ]

  unfoldable pub draw_locked : OutputBuffer → List ℕ → OutputBuffer
  unfolding screen_of
  draw_locked o p =
      if alt_screen o.modes
      then record o { screen = some (take_colour_asks (take_replies (E.write (screen_of o) p))) }
      else record o { screen = none }

  unfoldable pub set_size : OutputBuffer → ℕ → ℕ → OutputBuffer
  set_size o cols rows =
      if (cols == 0) || (rows == 0) then record o { cols = cols; rows = rows } else record o {
        cols = cols;
        rows = rows;
        screen = elim o.screen [ none ↦ none | some s ↦ some (resize s cols rows) ];
      }

  -- A lagged reader leaves the map.
  unfoldable pub prune_lagged : Subscriber → Subscriber
  prune_lagged s = if s.attached && s.lagged then record s { attached = false } else s

  unfoldable pub offer_attached : List ℕ → Subscriber → Subscriber
  offer_attached p s = if s.attached then offer s p else s

  pub data WriteResult : Type 0 where
    wrote : ℕ → WriteResult
    output_closed : WriteResult

  unfoldable pub write : OutputBuffer → List ℕ → OutputBuffer × WriteResult
  write o p = if o.closed then (o, output_closed) else if length p == 0 then (o, wrote 0) else (
    record (draw_locked (record o { modes = feed o.modes p }) p) {
      ring = append o.ring p;
      written = o.written + length p;
      subs = map (λ s. prune_lagged (offer_attached p s)) o.subs;
    },
    wrote (length p),
  )

  -- The subscriber that `Attach` makes.
  unfoldable pub new_subscriber : OutputBuffer → ℕ → Subscriber
  new_subscriber o queue_bytes = record {
    attached = true;
    preamble = Modes.preamble o.modes;
    screen = elim o.screen [ none ↦ none | some s ↦ some (render s) ];
    ch = record { sent = []; taken = 0; closed = false; faulted = false };
    max_bytes = if queue_bytes == 0 then default_output_bytes else queue_bytes;
    id = o.next_id;
    from = o.written;
    close_done = false;
    queued = 0;
    lagged = false;
  }

  -- The option is the snapshot and the subscriber, `none` for `ErrOutputClosed`.
  unfoldable pub attach : OutputBuffer → ℕ → OutputBuffer × Option (List ℕ × Subscriber)
  attach o queue_bytes =
      let s = new_subscriber o queue_bytes in
      if o.closed
      then (o, none)
      else (record o { subs = s ∷ o.subs; next_id = o.next_id + 1 }, some (snapshot o.ring, s))

  unfoldable pub drop_subscriber : Subscriber → Subscriber
  unfolding close_ch
  drop_subscriber s = if s.attached then record (close_ch s) { attached = false } else s

  unfoldable pub close : OutputBuffer → OutputBuffer
  close o = if o.closed then o else record o { closed = true; subs = map drop_subscriber o.subs }

  -- A method of the subscriber with a given number.
  unfoldable pub on_subscriber : ℕ → (Subscriber → Subscriber) → OutputBuffer → OutputBuffer
  on_subscriber id f o = record o { subs = map (λ s. if s.id == id then f s else s) o.subs }

  unfoldable pub detach : OutputBuffer → ℕ → OutputBuffer
  detach o id = on_subscriber id drop_subscriber o

  -- What the process, the daemon and the readers do to a buffer.
  pub data Event : Type 0 where
    writes : List ℕ → Event
    attaches : ℕ → Event
    detaches : ℕ → Event
    consumes : ℕ → ℕ → Event
    receives : ℕ → Event
    resizes : ℕ → ℕ → Event
    closes : Event

  unfoldable pub step : OutputBuffer → Event → OutputBuffer
  step o (writes p) = (write o p).0
  step o (attaches n) = (attach o n).0
  step o (detaches id) = detach o id
  step o (consumes id n) = on_subscriber id (consumed n) o
  step o (receives id) = on_subscriber id receive o
  step o (resizes cols rows) = set_size o cols rows
  step o closes = close o

  unfoldable pub run : OutputBuffer → List Event → OutputBuffer
  run o [] = o
  run o (e ∷ es) = run (step o e) es
