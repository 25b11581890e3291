-- ===== src/Supervisor/Steps.antt =====
-- internal/fabric/supervisor.go: the steps of the loop and the calls that meet it.
use gozellij.Prelude.{ℕ, ◌≡◌, true, none, some, List}
use gozellij.Restart.{Exit}
use gozellij.Supervisor.{finish, collect, rename_status, stop_process, stopping, collecting}
use gozellij.Supervisor.{
  Supervisor, turning, start, turn, stop, Process, taken, adopt_running, hold, Service, fail_spawn,
  redefine, spawn_failed, rename, after_failure, spawned, publish_running, Exit, watching, let_go,
  reaped, settle_exit, announcing, wait_on, fail_notice, waiting, turn_again, interrupt, returning,
  finish,
}

-- One step of `run`; the outcome of a spawn, an exit, a write and a wait come from outside.
pub data Loop : Supervisor → Supervisor → Type 0 where
  turns : (s : Supervisor) → s.at ≡ turning → Loop s (turn s)
  adopts : (s : Supervisor) (p : Process) → s.at ≡ taken (some p) → Loop s (hold s p)
  spawns : (s : Supervisor) (p : Process) → s.at ≡ taken none → Loop s (hold s p)
  misses : (s : Supervisor) (err : List ℕ) → s.at ≡ taken none → Loop s (fail_spawn s err)
  recovers : (s : Supervisor) (now : ℕ) → s.at ≡ spawn_failed → Loop s (after_failure s now)
  publishes : (s : Supervisor) (p : Process) → s.at ≡ spawned p → Loop s (publish_running s p)
  exits : (s : Supervisor) (p : Process) → s.at ≡ watching p → Loop s (collect s p)
  heeds :
      (s : Supervisor) (p : Process)
      → s.at ≡ watching p
      → s.cancelled ≡ true
      → Loop s (stop_process s p)
  dies : (s : Supervisor) (p : Process) → s.at ≡ stopping p → Loop s (collect s p)
  reaps :
      (s : Supervisor) (p : Process) (e : Exit) (ran : ℕ)
      → s.at ≡ collecting p
      → Loop s (let_go s e ran)
  settles :
      (s : Supervisor) (e : Exit) (ran now : ℕ)
      → s.at ≡ reaped e ran
      → Loop s (settle_exit s e ran now)
  notifies : (s : Supervisor) (d r : ℕ) → s.at ≡ announcing d r → Loop s (wait_on s d)
  unheard :
      (s : Supervisor) (d r : ℕ) (err : List ℕ) → s.at ≡ announcing d r → Loop s (fail_notice s err)
  elapses : (s : Supervisor) (d : ℕ) → s.at ≡ waiting d → Loop s (turn_again s)
  interrupts :
      (s : Supervisor) (d : ℕ) → s.at ≡ waiting d → s.cancelled ≡ true → Loop s (interrupt s)
  finishes : (s : Supervisor) → s.at ≡ returning → Loop s (finish s)

-- A step that waits for nothing outside the loop but the return of a spawn, of a write to the output
-- and of `p.Stop()`: neither for the end of a wait nor for an exit that nobody asked for.
abbrev pub Unaided : {s u : Supervisor} → Loop s u → Type 0
Unaided (exits s p e) = ⊥
Unaided (elapses s d e) = ⊥
Unaided l = Unit

-- A call from outside; a rename is two, since others may come between its halves.
pub data Call : Supervisor → Supervisor → Type 0 where
  starts : (s : Supervisor) → Call s (start s).0
  stops : (s : Supervisor) → Call s (stop s)
  hands_over : (s : Supervisor) (p : Process) → Call s (adopt_running s p)
  redefines : (s : Supervisor) (def : Service) → Call s (redefine s def)
  renames : (s : Supervisor) (to : List ℕ) → Call s (rename s to).0
  relabels : (s : Supervisor) (to : List ℕ) → Call s (rename_status s to)

pub data Reach (s : Supervisor) : Supervisor → Type 0 where
  here : Reach s s
  loops : {t u : Supervisor} → Reach s t → Loop t u → Reach s u
  calls : {t u : Supervisor} → Reach s t → Call t u → Reach s u
