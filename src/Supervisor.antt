-- ===== src/Supervisor.antt =====
-- internal/fabric/supervisor.go: the loop that keeps one service running, and what it publishes.
--
-- The state of the loop is the place it has come to, `Point`, beside the fields of the struct. A
-- step is the code from one place to the next, which publishes one status. The output buffer, the
-- options and the watchers are left out: a failing write to the buffer and the outcome of a spawn
-- are arguments of the steps. A time is a number of nanoseconds, and the zero time is `none`.
pub mod Steps
pub mod Invariant
pub mod Keeping
pub mod Published
pub mod Stopping
pub mod Ending
pub mod Alive
use gozellij.Prelude.{
  same_text, All, All-map, All-set, All-take, All-drop, All-copy, All-append, All-copy_at,
  All-replicate, All-get_or, List-cases, map_get, map_set, map_delete, map_get-map_set,
  map_get-map_delete, ℕ, zero, suc, ◌+◌, ◌-◌, ◌*◌, ◌/◌, ◌%◌, ◌^◌, ◌≤◌, ◌<◌, min, max, ◌≡◌, refl,
  sym, ap, ap₂, subst, ◌∙◌, ◌≡⟨◌⟩◌, ◌∎, ◌≢◌, ◌↔◌, ◌⊎◌, inl, inr, Bool, true, false, not, ◌&&◌, ◌||◌,
  Option, none, some, List, [], ◌∷◌, ◌++◌, map, reverse, append-nil, append_assoc, arith, ltb, leb,
  ◌==◌, if◌then◌else◌, Bool-cases, if_elim, ℕ_discrete, dec_le, dec_lt, pred, Option-cases, length,
  get_elem?, get_or, set, take, drop, replicate, length-replicate, length-copy, length-copy_at,
  get_or-drop, get_or-take, get_or-append_left, get_or-append_right, get_or-copy_new,
  get_or-copy_old, get_or-copy_at_before, get_or-copy_at_in, get_or-copy_at_behind, get_or_ext,
  get_or-set_self, get_or-set_ne, length-set, length-map, mod_cases, mod_step, mod_small, copy,
  copy_at, slice, keep_last, length-append, length-take, length-drop, take-append-drop, ltb→lt,
  lt→ltb, leb→le, le→leb, lt→leb, le→ltb, ==_iff, ==_ne,
}
use gozellij.Restart.{RestartPolicy, Exit, RestartTracker, clean, should_restart, died}
use gozellij.Restart

pub record Service : Type 0 where
  pub name : List ℕ
  pub command : List ℕ
  pub args : List (List ℕ)
  pub dir : List ℕ
  pub env : List (List ℕ)
  pub restart : RestartPolicy
  pub enabled : Bool
  pub no_log : Bool
  pub close_on_exit : Bool
  pub auto_name : Bool
  pub order : ℕ
  pub created_at : ℕ

pub data State : Type 0 where
  stopped running backing_off failed exited : State

-- `Pid` and `StartedAt` of a process.
pub record Process : Type 0 where
  pub pid : ℕ
  pub started_at : ℕ

pub record Status : Type 0 where
  pub service : List ℕ
  pub state : State
  pub pid : ℕ
  pub started_at : Option ℕ
  pub restarts : ℕ
  pub total_starts : ℕ
  pub last_exit : Exit
  pub has_exited : Bool
  pub next_restart : Option ℕ
  pub started : Bool
  pub ended : Bool
  pub log_error : List ℕ
  pub last_error : List ℕ

abbrev pub is_running : Status → Bool
is_running st = elim st.state [ running ↦ true | other ↦ false ]

abbrev pub is_live : Status → Bool
is_live st = st.started && not st.ended

-- Where `run` stands; with a wait go its delay and the count of restarts.
pub data Point : Type 0 where
  not_started turning spawn_failed returning finished : Point
  taken : Option Process → Point
  announcing : ℕ → ℕ → Point
  waiting : ℕ → Point
  spawned : Process → Point
  watching stopping collecting : Process → Point
  reaped : Exit → ℕ → Point

pub record Supervisor : Type 0 where
  pub svc : Service
  pub status : Status
  pub cur : Option Process
  pub tracker : RestartTracker
  pub cancelled : Bool
  pub started : Bool
  pub adopted : Option Process
  pub at : Point

abbrev pub no_exit : Exit
no_exit = record { code = 0; signal = [] }

unfoldable pub new_supervisor : Service → Supervisor
new_supervisor svc = record {
  svc = svc;
  status = record {
    service = svc.name;
    state = stopped;
    pid = 0;
    started_at = none;
    restarts = 0;
    total_starts = 0;
    last_exit = no_exit;
    has_exited = false;
    next_restart = none;
    started = false;
    ended = false;
    log_error = [];
    last_error = [];
  };
  cur = none;
  tracker = record { delay = 0; restarts = 0 };
  cancelled = false;
  started = false;
  adopted = none;
  at = not_started;
}

-- `Status`: the log's error is read from the buffer at that moment.
abbrev pub snapshot_status : Supervisor → List ℕ → Status
snapshot_status s log_error = record (s.status) { log_error = log_error }

abbrev pub adopt_running : Supervisor → Process → Supervisor
adopt_running s p = record s { adopted = some p }

unfoldable pub redefine : Supervisor → Service → Supervisor
redefine s def = record s { svc = record def { name = s.svc.name } }

-- `rename` takes the lock twice: for the definition, and later for the status.
unfoldable pub rename : Supervisor → List ℕ → Supervisor × Option Process
rename s to = (record s { svc = record (s.svc) { name = to } }, s.cur)

unfoldable pub rename_status : Supervisor → List ℕ → Supervisor
rename_status s to = record s { status = record (s.status) { service = to } }

-- `Start`, and whether it refused.
unfoldable pub start : Supervisor → Supervisor × Bool
start s = if s.started then (s, true) else (
  record s { started = true; at = turning; status = record (s.status) { started = true } },
  false,
)

-- `Stop`, as far as it cancels: nothing before a start.
unfoldable pub stop : Supervisor → Supervisor
stop s = if s.started then record s { cancelled = true } else s

-- The head of the loop.
unfoldable pub turn : Supervisor → Supervisor
turn s =
    if s.cancelled
    then record s {
      status = record (s.status) { state = stopped; pid = 0; started_at = none };
      at = returning;
    }
    else record s { adopted = none; at = taken s.adopted }

-- A spawn that failed, with its error, and one that did not.
unfoldable pub fail_spawn : Supervisor → List ℕ → Supervisor
fail_spawn s err = record s {
  status = record (s.status) { last_error = err; pid = 0; started_at = none };
  at = spawn_failed;
}

unfoldable pub hold : Supervisor → Process → Supervisor
hold s p = record s { cur = some p; at = spawned p }

unfoldable pub next_backoff : Supervisor → ℕ → Supervisor × (ℕ × ℕ)
next_backoff s ran =
    let (tracker, delay) = died s.tracker ran in
    (record s { tracker = tracker }, (delay, tracker.restarts))

-- The schedule of the next attempt, published with the state it belongs to.
unfoldable pub back_off : Supervisor → Status → ℕ → ℕ → Supervisor
back_off s st ran now =
    let (s', (delay, restarts)) = next_backoff s ran in
    record s' {
      status = record st {
        state = backing_off;
        restarts = restarts;
        next_restart = some (now + delay);
      };
      at = announcing delay restarts;
    }

abbrev pub is_always : RestartPolicy → Bool
is_always Restart.always = true
is_always p = false

-- What follows a failed spawn.
unfoldable pub after_failure : Supervisor → ℕ → Supervisor
after_failure s now =
    if not (is_always s.svc.restart)
    then record s { status = record (s.status) { state = failed }; at = returning }
    else back_off s s.status 0 now

unfoldable pub publish_running : Supervisor → Process → Supervisor
publish_running s p = record s {
  status = record (s.status) {
    state = running;
    pid = p.pid;
    started_at = some p.started_at;
    total_starts = s.status.total_starts + 1;
    last_error = [];
    next_restart = none;
  };
  at = watching p;
}

-- Told to stop while the process runs, the loop is in `p.Stop()`; once the process has exited, of
-- itself or told to, it is collected.
unfoldable pub stop_process : Supervisor → Process → Supervisor
stop_process s p = record s { at = stopping p }

unfoldable pub collect : Supervisor → Process → Supervisor
collect s p = record s { at = collecting p }

unfoldable pub let_go : Supervisor → Exit → ℕ → Supervisor
let_go s exit ran = record s { cur = none; at = reaped exit ran }

-- What is published of an exit, the next state apart.
abbrev pub exit_status : Status → Exit → Status
exit_status st exit = record st { last_exit = exit; has_exited = true; pid = 0; started_at = none }

-- What follows an exit.
unfoldable pub settle_exit : Supervisor → Exit → ℕ → ℕ → Supervisor
settle_exit s exit ran now =
    let st = exit_status s.status exit in
    if s.cancelled
    then record s { status = record st { state = stopped }; at = returning }
    else if not (should_restart s.svc.restart exit)
    then record s {
      status = record st { state = if clean exit then exited else failed };
      at = returning;
    }
    else back_off s st ran now

-- `waitBackoff`: the notice in the output, whose error ends the loop, and the wait.
unfoldable pub fail_notice : Supervisor → List ℕ → Supervisor
fail_notice s err = record s {
  status = record (s.status) { state = failed; last_error = err; next_restart = none };
  at = returning;
}

unfoldable pub wait_on : Supervisor → ℕ → Supervisor
wait_on s delay = record s { at = waiting delay }

unfoldable pub turn_again : Supervisor → Supervisor
turn_again s = record s { at = turning }

unfoldable pub interrupt : Supervisor → Supervisor
interrupt s = record s {
  status = record (s.status) { state = stopped; next_restart = none };
  at = returning;
}

-- The deferred calls.
unfoldable pub finish : Supervisor → Supervisor
finish s = record s { status = record (s.status) { ended = true }; at = finished }
