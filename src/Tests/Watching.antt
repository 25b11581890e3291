-- ===== src/Tests/Watching.antt =====
-- internal/fabric/watch.go: two watchers, one of which stops.
use gozellij.Prelude.{All, map_get, map_set, ◌≡◌, refl, true, false, some, List, [], ◌∷◌, arith}
use gozellij.Watchers.{
  Event, watches, notifies, unwatches, receives, run, notify, new_status_watchers, happen, watch,
  take_wakeup,
}
use gozellij.Watchers.Wakeups.{run-faulted, run-notify, Leaves}

abbrev two_watch : List Event
two_watch = watches ∷ watches ∷ receives 1 ∷ []

abbrev first_stops : List Event
first_stops = receives 0 ∷ unwatches 0 ∷ unwatches 0 ∷ notifies ∷ watches ∷ []

run-faulted_example : (run new_status_watchers first_stops).faulted ≡ false
run-faulted_example = run-faulted first_stops

others_leave : All (Leaves 1) first_stops
others_leave =
    (λ e. omega (arith, e), (λ e. omega (arith, e), (λ e. omega (arith, e), (tt, (tt, tt)))))

run-notify_example :
    map_get (run (notify (run new_status_watchers two_watch)) first_stops).chans 1 ≡ some true
unfolding map_get map_set run happen watch take_wakeup
run-notify_example = run-notify two_watch first_stops 1 false refl others_leave
