-- ===== src/Supervisor/Keeping.antt =====
-- internal/fabric/supervisor.go: every step keeps the status consistent.
use gozellij.Prelude.{
  ℕ, ◌≡◌, refl, ◌∙◌, ◌≢◌, inl, inr, true, false, not, Option, none, some, List, arith, if_elim,
}
use gozellij.Restart.{clean, died, Exit, should_restart}
use gozellij.Restart.Backoff.{died_bounds}
use gozellij.Supervisor.{State, Status, Supervisor, Process, Point, Service}
use gozellij.Supervisor
use gozellij.Supervisor.Steps.{Loop, Call, Reach}
use gozellij.Supervisor.Steps
use gozellij.Supervisor.Invariant.{Sound, at_place, begun, Idle, Place}

-- A step to another place, with a new status.
moved-Sound :
    (s : Supervisor) (st : Status) (cur adopted : Option Process) (at a : Point)
    → s.at ≡ a
    → a ≢ Point.not_started
    → Sound s
    → st.started ≡ s.status.started
    → Place at (record s { status = st; cur = cur; adopted = adopted; at = at })
    → (st.state ≡ State.backing_off → (due : ℕ) × (st.next_restart ≡ some due))
    → (st.state ≡ State.exited → (st.has_exited ≡ true) × (clean st.last_exit ≡ true))
    → Sound (record s { status = st; cur = cur; adopted = adopted; at = at })
moved-Sound s st cur adopted at a e n v launched place deadline clean_end = record {
  place = place;
  deadline = deadline;
  clean_end = clean_end;
  tracked = v.tracked;
  launched = launched ∙ v.launched;
  unstarted = λ h. absurd (begun s a e n v h);
}

-- The same, where the status neither waits nor says exited.
plain-Sound :
    (s : Supervisor) (st : Status) (cur adopted : Option Process) (at a : Point)
    → s.at ≡ a
    → a ≢ Point.not_started
    → Sound s
    → st.started ≡ s.status.started
    → Place at (record s { status = st; cur = cur; adopted = adopted; at = at })
    → st.state ≢ State.backing_off
    → st.state ≢ State.exited
    → Sound (record s { status = st; cur = cur; adopted = adopted; at = at })
plain-Sound s st cur adopted at a e n v launched place busy going =
    moved-Sound s st cur adopted at a e n v launched place (λ h. absurd (busy h))
      (λ h. absurd (going h))

turn-Sound : (s : Supervisor) → s.at ≡ Point.turning → Sound s → Sound (Supervisor.turn s)
unfolding Supervisor.turn
turn-Sound s e v =
    let (idle, between, going, free) = at_place s Point.turning e v in
    if_elim Sound s.cancelled _ _
      (λ _.
        plain-Sound s _ _ _ _ (Point.turning) e (λ k. ground arith) v refl
          ((refl, refl), inl refl, going, free) (λ h. ground arith) (λ h. ground arith))
      (λ _.
        moved-Sound s _ _ _ _ (Point.turning) e (λ k. ground arith) v refl
          (idle, between, going, free) (v.deadline) (v.clean_end))

hold-Sound :
    (s : Supervisor) (p : Process) (q : Option Process)
    → s.at ≡ Point.taken q
    → Sound s
    → Sound (Supervisor.hold s p)
unfolding Supervisor.hold
hold-Sound s p q e v =
    let (idle, between, going, free) = at_place s (Point.taken q) e v in
    moved-Sound s _ _ _ _ (Point.taken q) e (λ k. ground arith) v refl (idle, between, going, refl)
      (v.deadline) (v.clean_end)

fail_spawn-Sound :
    (s : Supervisor) (err : List ℕ)
    → s.at ≡ Point.taken none
    → Sound s
    → Sound (Supervisor.fail_spawn s err)
unfolding Supervisor.fail_spawn
fail_spawn-Sound s err e v =
    let (idle, between, going, free) = at_place s (Point.taken none) e v in
    moved-Sound s _ _ _ _ (Point.taken none) e (λ k. ground arith) v refl
      ((refl, refl), between, going, free) (v.deadline) (v.clean_end)

-- A schedule within the limits of the tracker.
back_off-Sound :
    (s : Supervisor) (st : Status) (a : Point) (ran now : ℕ)
    → s.at ≡ a
    → a ≢ Point.not_started
    → Idle st
    → st.ended ≡ false
    → st.started ≡ s.started
    → s.cur ≡ none
    → Sound s
    → Sound (Supervisor.back_off s st ran now)
unfolding Supervisor.back_off Supervisor.next_backoff died
back_off-Sound s st a ran now e n idle going launched free v =
    let bounds = died_bounds s.tracker ran v.tracked in
    record {
      place = (idle, refl, going, free, unfold died in bounds);
      deadline = λ h. (_, refl);
      clean_end = λ h. absurd (ground arith);
      tracked = inr (unfold died in bounds);
      launched = launched;
      unstarted = λ h. absurd (begun s a e n v h);
    }

after_failure-Sound :
    (s : Supervisor) (now : ℕ)
    → s.at ≡ Point.spawn_failed
    → Sound s
    → Sound (Supervisor.after_failure s now)
unfolding Supervisor.after_failure
after_failure-Sound s now e v =
    let (idle, between, going, free) = at_place s Point.spawn_failed e v in
    if_elim Sound (not (Supervisor.is_always s.svc.restart)) _ _
      (λ _.
        plain-Sound s _ _ _ _ (Point.spawn_failed) e (λ k. ground arith) v refl
          (idle, inr (inl refl), going, free) (λ h. ground arith) (λ h. ground arith))
      (λ _.
        back_off-Sound s s.status Point.spawn_failed 0 now e (λ k. ground arith) idle going
          v.launched free v)

publish_running-Sound :
    (s : Supervisor) (p : Process)
    → s.at ≡ Point.spawned p
    → Sound s
    → Sound (Supervisor.publish_running s p)
unfolding Supervisor.publish_running
publish_running-Sound s p e v =
    let (idle, between, going, held) = at_place s (Point.spawned p) e v in
    plain-Sound s _ _ _ _ (Point.spawned p) e (λ k. ground arith) v refl
      ((refl, refl, refl, refl, refl), going, held) (λ h. ground arith) (λ h. ground arith)

-- The same process, at another place where the loop holds it.
holding-Sound :
    (s : Supervisor) (a at : Point)
    → s.at ≡ a
    → a ≢ Point.not_started
    → Sound s
    → Place at (record s { at = at })
    → Sound (record s { at = at })
holding-Sound s a at e n v place =
    moved-Sound s s.status s.cur s.adopted at a e n v refl place v.deadline v.clean_end

let_go-Sound :
    (s : Supervisor) (p : Process) (exit : Exit) (ran : ℕ)
    → s.at ≡ Point.collecting p
    → Sound s
    → Sound (Supervisor.let_go s exit ran)
unfolding Supervisor.let_go
let_go-Sound s p exit ran e v =
    let (shows, going, held) = at_place s (Point.collecting p) e v in
    moved-Sound s _ _ _ _ (Point.collecting p) e (λ k. ground arith) v refl
      ((p, shows), going, refl) (v.deadline) (v.clean_end)

settle_exit-Sound :
    (s : Supervisor) (exit : Exit) (ran now : ℕ)
    → s.at ≡ Point.reaped exit ran
    → Sound s
    → Sound (Supervisor.settle_exit s exit ran now)
unfolding Supervisor.settle_exit
settle_exit-Sound s exit ran now e v =
    let (shows, going, free) = at_place s (Point.reaped exit ran) e v in
    if_elim Sound s.cancelled _ _
      (λ _.
        plain-Sound s _ _ _ _ (Point.reaped exit ran) e (λ k. ground arith) v refl
          ((refl, refl), inl refl, going, free) (λ h. ground arith) (λ h. ground arith))
      (λ _.
        if_elim Sound (not (should_restart s.svc.restart exit)) _ _
          (λ _.
            if_elim
              (λ x. Sound (record s {
                status = record (Supervisor.exit_status s.status exit) { state = x };
                at = Point.returning;
              }))
              (clean exit) State.exited State.failed
              (λ good.
                moved-Sound s _ _ _ _ (Point.reaped exit ran) e (λ k. ground arith) v refl
                  ((refl, refl), inr (inr refl), going, free) (λ h. absurd (ground arith))
                  (λ h. (refl, good)))
              (λ bad.
                plain-Sound s _ _ _ _ (Point.reaped exit ran) e (λ k. ground arith) v refl
                  ((refl, refl), inr (inl refl), going, free) (λ h. ground arith)
                  (λ h. ground arith)))
          (λ _.
            back_off-Sound s (Supervisor.exit_status s.status exit) (Point.reaped exit ran) ran now
              e (λ k. ground arith) (refl, refl) going v.launched free v))

fail_notice-Sound :
    (s : Supervisor) (d r : ℕ) (err : List ℕ)
    → s.at ≡ Point.announcing d r
    → Sound s
    → Sound (Supervisor.fail_notice s err)
unfolding Supervisor.fail_notice
fail_notice-Sound s d r err e v =
    let (idle, _, going, free, _) = at_place s (Point.announcing d r) e v in
    plain-Sound s _ _ _ _ (Point.announcing d r) e (λ k. ground arith) v refl
      (idle, inr (inl refl), going, free) (λ h. ground arith) (λ h. ground arith)

wait_on-Sound :
    (s : Supervisor) (d r : ℕ)
    → s.at ≡ Point.announcing d r
    → Sound s
    → Sound (Supervisor.wait_on s d)
unfolding Supervisor.wait_on
wait_on-Sound s d r e v =
    let backing = at_place s (Point.announcing d r) e v in
    moved-Sound s _ _ _ _ (Point.announcing d r) e (λ k. ground arith) v refl backing (v.deadline)
      (v.clean_end)

turn_again-Sound :
    (s : Supervisor) (d : ℕ) → s.at ≡ Point.waiting d → Sound s → Sound (Supervisor.turn_again s)
unfolding Supervisor.turn_again
turn_again-Sound s d e v =
    let (idle, due, going, free, _) = at_place s (Point.waiting d) e v in
    moved-Sound s _ _ _ _ (Point.waiting d) e (λ k. ground arith) v refl
      (idle, inr due, going, free) (v.deadline) (v.clean_end)

interrupt-Sound :
    (s : Supervisor) (d : ℕ) → s.at ≡ Point.waiting d → Sound s → Sound (Supervisor.interrupt s)
unfolding Supervisor.interrupt
interrupt-Sound s d e v =
    let (idle, _, going, free, _) = at_place s (Point.waiting d) e v in
    plain-Sound s _ _ _ _ (Point.waiting d) e (λ k. ground arith) v refl
      (idle, inl refl, going, free) (λ h. ground arith) (λ h. ground arith)

finish-Sound : (s : Supervisor) → s.at ≡ Point.returning → Sound s → Sound (Supervisor.finish s)
unfolding Supervisor.finish
finish-Sound s e v =
    let (idle, over, going, free) = at_place s Point.returning e v in
    moved-Sound s _ _ _ _ (Point.returning) e (λ k. ground arith) v refl (idle, over, refl, free)
      (v.deadline) (v.clean_end)

pub Loop-Sound : {s u : Supervisor} → Loop s u → Sound s → Sound u
unfolding Supervisor.collect Supervisor.stop_process
Loop-Sound (Steps.turns s e) v = turn-Sound s e v
Loop-Sound (Steps.adopts s p e) v = hold-Sound s p (some p) e v
Loop-Sound (Steps.spawns s p e) v = hold-Sound s p none e v
Loop-Sound (Steps.misses s err e) v = fail_spawn-Sound s err e v
Loop-Sound (Steps.recovers s now e) v = after_failure-Sound s now e v
Loop-Sound (Steps.publishes s p e) v = publish_running-Sound s p e v
Loop-Sound (Steps.exits s p e) v =
    holding-Sound s (Point.watching p) (Point.collecting p) e (λ k. ground arith) v
      (at_place s (Point.watching p) e v)
Loop-Sound (Steps.heeds s p e c) v =
    holding-Sound s (Point.watching p) (Point.stopping p) e (λ k. ground arith) v
      (at_place s (Point.watching p) e v)
Loop-Sound (Steps.dies s p e) v =
    holding-Sound s (Point.stopping p) (Point.collecting p) e (λ k. ground arith) v
      (at_place s (Point.stopping p) e v)
Loop-Sound (Steps.reaps s p x ran e) v = let_go-Sound s p x ran e v
Loop-Sound (Steps.settles s x ran now e) v = settle_exit-Sound s x ran now e v
Loop-Sound (Steps.notifies s d r e) v = wait_on-Sound s d r e v
Loop-Sound (Steps.unheard s d r err e) v = fail_notice-Sound s d r err e v
Loop-Sound (Steps.elapses s d e) v = turn_again-Sound s d e v
Loop-Sound (Steps.interrupts s d e c) v = interrupt-Sound s d e v
Loop-Sound (Steps.finishes s e) v = finish-Sound s e v
