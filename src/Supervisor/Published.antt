-- ===== src/Supervisor/Published.antt =====
-- internal/fabric/supervisor.go: what every status that anybody can read says.
use gozellij.Prelude.{
  ℕ, ◌≤◌, ◌≡◌, refl, ◌≢◌, ◌⊎◌, inl, Bool, true, false, none, some, List, arith, if_elim,
}
use gozellij.Restart.{clean, backoff_first, backoff_max}
use gozellij.Supervisor.{State, Status, Supervisor, Process, Point, Service, new_supervisor}
use gozellij.Supervisor
use gozellij.Supervisor.Steps.{Loop, Call, Reach}
use gozellij.Supervisor.Steps
use gozellij.Supervisor.Invariant.{
  Sound, Place, at_place, new_supervisor-Sound, IsOver, Shows, Idle,
}
use gozellij.Supervisor.Keeping.{Loop-Sound}

-- A place does not depend on the name, on the definition or on what is told to the loop.
same_place :
    (a : Point) (s t : Supervisor) (name : List ℕ) (b : Bool)
    → Place a s
    → Place a (record t { status = record (s.status) { service = name; started = b }; cur = s.cur })
same_place Point.not_started s t name b h = h
same_place a s t name b h = h

start-Sound : (s : Supervisor) → Sound s → Sound (Supervisor.start s).0
unfolding Supervisor.start
start-Sound s v =
    if_elim (λ (x : Supervisor × Bool). Sound x.0) s.started _ _ (λ _. v)
      (λ fresh.
        let (idle, still, going, free) = at_place s Point.not_started (v.unstarted fresh) v in
        record {
          place = (idle, inl still, going, free);
          deadline = v.deadline;
          clean_end = v.clean_end;
          tracked = v.tracked;
          launched = refl;
          unstarted = λ (h : true ≡ false). absurd (ground arith);
        })

stop-Sound : (s : Supervisor) → Sound s → Sound (Supervisor.stop s)
unfolding Supervisor.stop
stop-Sound s v =
    if_elim Sound s.started _ s
      (λ _. record {
        place =
            same_place s.at s (record s { cancelled = true }) s.status.service s.status.started
              v.place;
        deadline = v.deadline;
        clean_end = v.clean_end;
        tracked = v.tracked;
        launched = v.launched;
        unstarted = v.unstarted;
      })
      (λ _. v)

Call-Sound : {s u : Supervisor} → Call s u → Sound s → Sound u
unfolding Supervisor.redefine Supervisor.rename Supervisor.rename_status
Call-Sound (Steps.starts s) v = start-Sound s v
Call-Sound (Steps.stops s) v = stop-Sound s v
Call-Sound (Steps.hands_over s p) v = record {
  place =
      same_place s.at s (Supervisor.adopt_running s p) s.status.service s.status.started v.place;
  deadline = v.deadline;
  clean_end = v.clean_end;
  tracked = v.tracked;
  launched = v.launched;
  unstarted = v.unstarted;
}
Call-Sound (Steps.redefines s def) v = record {
  place = same_place s.at s (Supervisor.redefine s def) s.status.service s.status.started v.place;
  deadline = v.deadline;
  clean_end = v.clean_end;
  tracked = v.tracked;
  launched = v.launched;
  unstarted = v.unstarted;
}
Call-Sound (Steps.renames s to) v = record {
  place = same_place s.at s (Supervisor.rename s to).0 s.status.service s.status.started v.place;
  deadline = v.deadline;
  clean_end = v.clean_end;
  tracked = v.tracked;
  launched = v.launched;
  unstarted = v.unstarted;
}
Call-Sound (Steps.relabels s to) v = record {
  place = same_place s.at s (Supervisor.rename_status s to) to s.status.started v.place;
  deadline = v.deadline;
  clean_end = v.clean_end;
  tracked = v.tracked;
  launched = v.launched;
  unstarted = v.unstarted;
}

pub Reach-Sound : {s u : Supervisor} → Reach s u → Sound s → Sound u
Reach-Sound Steps.here v = v
Reach-Sound (Steps.loops r l) v = Loop-Sound l (Reach-Sound r v)
Reach-Sound (Steps.calls r c) v = Call-Sound c (Reach-Sound r v)

-- What a status says in each state, and once its loop has ended.
abbrev pub Says : State → Supervisor → Type 0
Says State.running s = (p : Process) × Shows s.status p
Says State.stopped s = Idle s.status
Says State.failed s = Idle s.status
Says State.exited s =
    Idle s.status × (s.status.has_exited ≡ true) × (clean s.status.last_exit ≡ true)
Says State.backing_off s =
    Idle s.status × (s.status.ended ≡ false) × ((due : ℕ) × (s.status.next_restart ≡ some due))

abbrev pub SaysEnded : Bool → Supervisor → Type 0
SaysEnded true s = IsOver s.status.state × (s.cur ≡ none)
SaysEnded false s = Unit

abbrev pub Consistent : Supervisor → Type 0
Consistent s = Says s.status.state s × SaysEnded s.status.ended s

-- A process runs and is shown, or none is.
abbrev Summary : Supervisor → Type 0
Summary s =
    (((p : Process) × Shows s.status p) × (s.status.ended ≡ false))
    ⊎ (Idle s.status
        × ((s.status.state ≢ State.running)
            × (((s.status.state ≡ State.backing_off) → s.status.ended ≡ false)
                × ((s.status.ended ≡ true) → IsOver s.status.state × (s.cur ≡ none)))))

-- However the service fails and whatever is called, every wait before a restart lasts at least
-- `BackoffFirst` and at most `BackoffMax`, and nothing runs meanwhile.
pub Reach-waiting :
    (svc : Service) (s : Supervisor) (d : ℕ)
    → Reach (new_supervisor svc) s
    → s.at ≡ Point.waiting d
    → (backoff_first ≤ d) × (d ≤ backoff_max) × (s.cur ≡ none)
Reach-waiting svc s d r e =
    let (idle, due, going, free, wait) =
      at_place s (Point.waiting d) e (Reach-Sound r (new_supervisor-Sound svc)) in
    (wait.0, wait.1, free)
