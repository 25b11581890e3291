-- ===== src/Supervisor/Invariant.antt =====
-- internal/fabric/supervisor.go: what every published status says.
use gozellij.Prelude.{
  ℕ, ◌≤◌, ◌≡◌, refl, sym, subst, ◌∙◌, ◌≢◌, ◌⊎◌, inl, true, false, none, some, [], arith,
}
use gozellij.Restart.{clean, backoff_first, backoff_max}
use gozellij.Restart.Backoff.{IsValid}
use gozellij.Supervisor.{State, Status, Supervisor, Process, Point, Service}
use gozellij.Supervisor

-- No process, and one that runs.
abbrev pub Idle : Status → Type 0
Idle st = (st.pid ≡ 0) × (st.started_at ≡ none)

abbrev pub Shows : Status → Process → Type 0
Shows st p =
    (st.state ≡ State.running)
    × (st.pid ≡ p.pid)
    × (st.started_at ≡ some p.started_at)
    × (st.next_restart ≡ none)
    × (st.last_error ≡ [])

abbrev pub IsOver : State → Type 0
IsOver x = (x ≡ State.stopped) ⊎ ((x ≡ State.failed) ⊎ (x ≡ State.exited))

abbrev pub IsBetween : State → Type 0
IsBetween x = (x ≡ State.stopped) ⊎ (x ≡ State.backing_off)

abbrev pub IsWait : ℕ → Type 0
IsWait d = (backoff_first ≤ d) × (d ≤ backoff_max)

-- Nothing runs and the loop goes on; nothing runs and a restart is due.
abbrev pub Pausing : Supervisor → Type 0
Pausing s = Idle s.status × IsBetween s.status.state × (s.status.ended ≡ false) × (s.cur ≡ none)

abbrev pub Backing : ℕ → Supervisor → Type 0
Backing d s =
    Idle s.status
    × (s.status.state ≡ State.backing_off)
    × (s.status.ended ≡ false)
    × (s.cur ≡ none)
    × IsWait d

-- A process runs, and the status shows it.
abbrev pub Holding : Process → Supervisor → Type 0
Holding p s = Shows s.status p × (s.status.ended ≡ false) × (s.cur ≡ some p)

-- What holds at each place of the loop.
abbrev pub Place : Point → Supervisor → Type 0
Place Point.not_started s =
    Idle s.status × (s.status.state ≡ State.stopped) × (s.status.ended ≡ false) × (s.cur ≡ none)
Place Point.turning s = Pausing s
Place (Point.taken p) s = Pausing s
Place Point.spawn_failed s = Pausing s
Place (Point.announcing d r) s = Backing d s
Place (Point.waiting d) s = Backing d s
Place (Point.spawned p) s =
    Idle s.status × IsBetween s.status.state × (s.status.ended ≡ false) × (s.cur ≡ some p)
Place (Point.watching p) s = Holding p s
Place (Point.stopping p) s = Holding p s
Place (Point.collecting p) s = Holding p s
Place (Point.reaped e ran) s =
    ((p : Process) × Shows s.status p) × (s.status.ended ≡ false) × (s.cur ≡ none)
Place Point.returning s =
    Idle s.status × IsOver s.status.state × (s.status.ended ≡ false) × (s.cur ≡ none)
Place Point.finished s =
    Idle s.status × IsOver s.status.state × (s.status.ended ≡ true) × (s.cur ≡ none)

-- A deadline for every wait and a clean exit for every service that is called exited.
pub record Sound (s : Supervisor) : Type 0 where
  pub place : Place s.at s
  pub deadline : s.status.state ≡ State.backing_off → (due : ℕ) × (s.status.next_restart ≡ some due)
  pub clean_end :
      s.status.state ≡ State.exited
      → (s.status.has_exited ≡ true) × (clean s.status.last_exit ≡ true)
  pub tracked : IsValid s.tracker
  pub launched : s.status.started ≡ s.started
  pub unstarted : s.started ≡ false → s.at ≡ Point.not_started

pub at_place : (s : Supervisor) (a : Point) → s.at ≡ a → Sound s → Place a s
at_place s a e v = subst (λ x. Place x s) e v.place

-- A loop that has come anywhere was started.
pub begun :
    (s : Supervisor) (a : Point) → s.at ≡ a → a ≢ Point.not_started → Sound s → s.started ≢ false
begun s a e n v h = n (sym e ∙ v.unstarted h)

pub new_supervisor-Sound : (svc : Service) → Sound (Supervisor.new_supervisor svc)
unfolding Supervisor.new_supervisor
new_supervisor-Sound svc = record {
  place = ((refl, refl), refl, refl, refl);
  deadline = λ h. absurd (ground arith);
  clean_end = λ h. absurd (ground arith);
  tracked = inl refl;
  launched = refl;
  unstarted = λ _. refl;
}
