-- ===== src/Tests/Services.antt =====
-- internal/fabric/supervisor.go: a service that is started, runs, and is stopped.
use gozellij.Prelude.{◌≤◌, ◌≡◌, refl, ◌≢◌, ◌⊎◌, true, false, none, [], ◌∷◌, arith}
use gozellij.Restart
use gozellij.Supervisor.{Service, Supervisor, Process, Point, new_supervisor}
use gozellij.Supervisor
use gozellij.Supervisor.Steps
use gozellij.Supervisor.Steps.{Reach, Loop}
use gozellij.Supervisor.Published.{Reach-waiting}
use gozellij.Restart.{Exit, died, backoff_first, next_delay, backoff_max, should_restart, clean}
use gozellij.Supervisor.Stopping.{GoesOn, LoopSteps, goes, LoopSteps-stop, stays}
use gozellij.Supervisor.Ending.{Remains, Reach-finished}

abbrev web : Service
web = record {
  name = b'w' ∷ b'e' ∷ b'b' ∷ [];
  command = b'h' ∷ b't' ∷ [];
  args = [];
  dir = [];
  env = [];
  restart = Restart.on_failure;
  enabled = true;
  no_log = false;
  close_on_exit = false;
  auto_name = false;
  order = 0;
  created_at = 0;
}

abbrev first_process : Process
first_process = record { pid = 41; started_at = 5 }

abbrev killed : Exit
killed = record { code = 137; signal = b'k' ∷ [] }

-- Started and running.
abbrev up : Supervisor
up =
    Supervisor.publish_running
      (Supervisor.hold (Supervisor.turn (Supervisor.start (new_supervisor web)).0) first_process)
      first_process

Reach-turned :
    Reach (new_supervisor web) (Supervisor.turn (Supervisor.start (new_supervisor web)).0)
unfolding Supervisor.start new_supervisor
Reach-turned =
    Steps.loops (Steps.calls Steps.here (Steps.starts (new_supervisor web)))
      (Steps.turns (Supervisor.start (new_supervisor web)).0 refl)

Reach-up : Reach (new_supervisor web) up
unfolding Supervisor.start new_supervisor Supervisor.turn Supervisor.hold
Reach-up =
    Steps.loops
      (Steps.loops Reach-turned (
        Steps.spawns (Supervisor.turn (Supervisor.start (new_supervisor web)).0) first_process
          refl))
      (Steps.publishes
        (Supervisor.hold (Supervisor.turn (Supervisor.start (new_supervisor web)).0) first_process)
        first_process refl)

-- Killed after a second, and waiting.
abbrev down : Supervisor
down =
    Supervisor.settle_exit
      (Supervisor.let_go (Supervisor.collect up first_process) killed Restart.second) killed
      Restart.second 7

Reach-down : Reach (new_supervisor web) (Supervisor.wait_on down Restart.second)
unfolding Supervisor.start new_supervisor Supervisor.turn Supervisor.hold Supervisor.publish_running
    Supervisor.let_go Supervisor.settle_exit Supervisor.back_off Supervisor.next_backoff died
    next_delay should_restart clean Supervisor.collect
Reach-down =
    Steps.loops
      (Steps.loops
        (Steps.loops (Steps.loops Reach-up (Steps.exits up first_process refl)) (
          Steps.reaps (Supervisor.collect up first_process) first_process killed Restart.second
            refl))
        (Steps.settles
          (Supervisor.let_go (Supervisor.collect up first_process) killed Restart.second) killed
          Restart.second 7 refl))
      (Steps.notifies down Restart.second 1 refl)

Reach-waiting_example :
    (backoff_first ≤ Restart.second)
    × (Restart.second ≤ backoff_max)
    × ((Supervisor.wait_on down Restart.second).cur ≡ none)
Reach-waiting_example =
    Reach-waiting web (Supervisor.wait_on down Restart.second) Restart.second Reach-down
      (unfold Supervisor.wait_on in refl)

-- Told to stop, and its process stopped and let go.
abbrev stopped_process : Supervisor
stopped_process =
    Supervisor.collect (Supervisor.stop_process (Supervisor.stop up) first_process) first_process

abbrev told : Supervisor
told = Supervisor.let_go stopped_process killed 3

LoopSteps-told : LoopSteps 3 (Supervisor.stop up) told
unfolding Supervisor.start new_supervisor Supervisor.turn Supervisor.hold Supervisor.publish_running
    Supervisor.stop Supervisor.stop_process Supervisor.collect
LoopSteps-told = goes (Steps.heeds (Supervisor.stop up) first_process refl refl) (
    goes
      (Steps.dies (Supervisor.stop_process (Supervisor.stop up) first_process) first_process refl)
      (goes (Steps.reaps stopped_process first_process killed 3 refl) stays))

up_started : up.started ≡ true
unfolding Supervisor.start new_supervisor Supervisor.turn Supervisor.hold Supervisor.publish_running
up_started = refl

up_watching : up.at ≡ Point.watching first_process
unfolding Supervisor.publish_running
up_watching = refl

up_launched : up.at ≢ Point.not_started
unfolding Supervisor.publish_running
up_launched h = ground arith

LoopSteps-stop_example : (3 ≤ 7) × ((told.at ≡ Point.finished) ⊎ GoesOn told)
LoopSteps-stop_example = LoopSteps-stop 3 up told up_started up_launched LoopSteps-told

-- Ended, and started once more.
abbrev over : Supervisor
over = Supervisor.finish (Supervisor.settle_exit told killed 3 9)

over_finished : over.at ≡ Point.finished
unfolding Supervisor.finish
over_finished = refl

over_started : over.started ≡ true
unfolding Supervisor.start new_supervisor Supervisor.turn Supervisor.hold Supervisor.publish_running
    Supervisor.stop Supervisor.let_go Supervisor.settle_exit Supervisor.finish
    Supervisor.stop_process Supervisor.collect
over_started = refl

Reach-finished_example : Remains over (Supervisor.start over).0
Reach-finished_example =
    Reach-finished over (Supervisor.start over).0 (Steps.calls Steps.here (Steps.starts over))
      over_finished over_started
