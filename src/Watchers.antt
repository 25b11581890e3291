-- ===== src/Watchers.antt =====
-- internal/fabric/watch.go: who is told that the status of a service changed.
--
-- A channel of capacity one is whether it holds a wakeup. Closing a channel twice and sending on a
-- closed one are panics, `faulted`; a channel that was closed is listed in `closed`.
pub mod Wakeups
use gozellij.Prelude.{
  same_text, All, All-map, All-set, All-take, All-drop, All-copy, All-append, All-copy_at,
  All-replicate, All-get_or, List-cases, map_get, map_set, map_delete, map_get-map_set,
  map_get-map_delete, ℕ, zero, suc, ◌+◌, ◌-◌, ◌*◌, ◌/◌, ◌%◌, ◌^◌, ◌≤◌, ◌<◌, min, max, ◌≡◌, refl,
  sym, ap, ap₂, subst, ◌∙◌, ◌≡⟨◌⟩◌, ◌∎, ◌≢◌, ◌↔◌, ◌⊎◌, inl, inr, Bool, true, false, not, ◌&&◌, ◌||◌,
  Option, none, some, List, [], ◌∷◌, ◌++◌, map, reverse, append-nil, append_assoc, arith, ltb, leb,
  ◌==◌, if◌then◌else◌, Bool-cases, if_elim, ℕ_discrete, dec_le, dec_lt, pred, Option-cases, length,
  get_elem?, get_or, set, take, drop, replicate, length-replicate, length-copy, length-copy_at,
  get_or-drop, get_or-take, get_or-append_left, get_or-append_right, get_or-copy_new,
  get_or-copy_old, get_or-copy_at_before, get_or-copy_at_in, get_or-copy_at_behind, get_or_ext,
  get_or-set_self, get_or-set_ne, length-set, length-map, mod_cases, mod_step, mod_small, copy,
  copy_at, slice, keep_last, length-append, length-take, length-drop, take-append-drop, ltb→lt,
  lt→ltb, leb→le, le→leb, lt→leb, le→ltb, ==_iff, ==_ne,
}

pub record StatusWatchers : Type 0 where
  pub chans : List (ℕ × Bool)
  pub next : ℕ
  pub closed : List ℕ
  pub faulted : Bool

abbrev pub new_status_watchers : StatusWatchers
new_status_watchers = record { chans = []; next = 0; closed = []; faulted = false }

-- `Watch`, and the number of the channel.
unfoldable pub watch : StatusWatchers → StatusWatchers × ℕ
watch w = (record w { chans = map_set w.chans w.next false; next = w.next + 1 }, w.next)

unfoldable pub is_closed : List ℕ → ℕ → Bool
is_closed [] i = false
is_closed (k ∷ ks) i = (k == i) || is_closed ks i

-- The function that stops watching.
unfoldable pub unwatch : StatusWatchers → ℕ → StatusWatchers
unwatch w i = elim (map_get w.chans i) [
  | none ↦ w
  | some held ↦ record w {
    chans = map_delete w.chans i;
    closed = i ∷ w.closed;
    faulted = w.faulted || is_closed w.closed i;
  }
]

-- A wakeup for every channel; one that holds a wakeup already keeps it.
unfoldable pub wake : List (ℕ × Bool) → List (ℕ × Bool)
wake [] = []
wake ((k, held) ∷ m) = (k, true) ∷ wake m

unfoldable pub any_closed : List ℕ → List (ℕ × Bool) → Bool
any_closed ks [] = false
any_closed ks ((k, held) ∷ m) = is_closed ks k || any_closed ks m

unfoldable pub notify : StatusWatchers → StatusWatchers
notify w = record w { chans = wake w.chans; faulted = w.faulted || any_closed w.closed w.chans }

-- A watcher takes what its channel holds.
unfoldable pub take_wakeup : StatusWatchers → ℕ → StatusWatchers
take_wakeup w i = elim (map_get w.chans i) [
  | none ↦ w
  | some held ↦ record w { chans = map_set w.chans i false }
]

pub data Event : Type 0 where
  watches notifies : Event
  unwatches receives : ℕ → Event

unfoldable pub happen : StatusWatchers → Event → StatusWatchers
happen w watches = (watch w).0
happen w notifies = notify w
happen w (unwatches i) = unwatch w i
happen w (receives i) = take_wakeup w i

unfoldable pub run : StatusWatchers → List Event → StatusWatchers
run w [] = w
run w (e ∷ es) = run (happen w e) es
