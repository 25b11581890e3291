-- ===== src/Lib.antt =====
-- gozellij: the parts of the multiplexer that keep state, and what is proved of them.
--
-- The daemon runs processes on pseudo-terminals. What a process writes goes into its output
-- buffer, which keeps the newest bytes in a ring, follows the terminal modes that the output
-- switches on, keeps a picture of a full-screen program, and hands every write to the attached
-- readers. A reader that attaches gets the modes, the ring's bytes or the picture, and then the live
-- stream; it reaches the client in length-prefixed frames. A client that owns its screen interprets
-- the stream with the terminal emulator. When a process ends, its restart policy and the tracker of
-- its failures say whether and when it starts again.
--
-- Files, and the code that each is about:
--
--   Restart.antt       internal/fabric/restart.go: `ParseRestartPolicy`, `ShouldRestart`, `Died`.
--                      Restart/Backoff: how the delay grows. Restart/Policy: text and decisions.
--   Supervisor.antt    internal/fabric/supervisor.go: the places of `run` and the code between them,
--                      with the calls that meet it. Supervisor/Steps: these as relations.
--                      Invariant, Keeping and Published: what a status says. Alive: its
--                      processes. Stopping and Ending: how the loop ends.
--   Registry.antt      internal/fabric/service.go: names, `Validate`, and the directory of definitions.
--                      Registry/Files, Names, Definitions and Removing: its files and what is
--                      read back.
--   Watchers.antt      internal/fabric/watch.go: `Watch`, `Notify` and the function that stops.
--                      Watchers/Wakeups: channels and wakeups in any order of these.
--   PrefixKey.antt     internal/status/prefix.go: `ParsePrefix`, `PrefixLabel`. What strings and strconv
--                      do is an argument. PrefixKey/Labels: keys and their labels.
--   Frame.antt         internal/ipc/frame.go: `WriteFrame`, `ReadFrame`. Frame/RoundTrip and
--                      Frame/Decoding: from frames to bytes and back, and from bytes to frames.
--   Output/Ring.antt   internal/fabric/output.go: `append`, `snapshotLocked`. Ring/Window and
--                      Ring/Refine: where each byte stands, and the list that the ring stands for.
--   Output/Subscriber.antt  the same file: `Subscriber`, its channel and its budget.
--   Output/Buffer.antt      the same file: `OutputBuffer`, with `run` over a list of events.
--                      Buffer/Readers, Buffer/Delivery and Buffer/Calls: what readers get.
--   Output/Replay.antt      the same file: `ReplayStart`.
--   Modes.antt         internal/fabric/termmodes.go: `Feed`, `Preamble`, `Reset`. Modes/Decimal,
--                      Modes/Invariant, Modes/Keys, Modes/Replay and Modes/Rounds: numbers,
--                      the table, the round trips, the loop.
--   Grid/Cell.antt     internal/vt/vt.go: cells, styles and the cursor.
--   Grid/History.antt  internal/vt/grid/history.go, the scrollback; History/Refine, its list.
--   Grid/Term.antt     internal/vt/grid/grid.go and charset.go: `Term` and its settings.
--   Grid/Scroll, Draw, Move, Resize.antt  internal/vt/grid/grid.go: its operations.
--   Grid/Paragraphs, Wrap, Reflow.antt    internal/vt/grid/reflow.go.
--   Grid/Ops.antt      a sequence of these operations and of those in Parser that edit the grid.
--   Grid/Shape.antt    `WellFormed`, and its children: the operations keep it, and do not panic.
--   Grid/Charset.antt  internal/vt/grid/charset.go: `mapRune`.
--   Width.antt         internal/vt/width.go. Width/Truncate: what a truncation keeps.
--   Parser.antt        internal/vt/grid/parser.go, its children from State to Feed: the state machine
--                      that turns bytes into operations on the grid. Feed has `feed` and `ground`,
--                      Control, Escape, Csi and Strings the other states, Numbers, Sgr, Utf8 and
--                      Lines what they call. Lookahead and Split: a stream and its writes.
--                      Parser/Safety and its children: streams run without a panic.
--   Layout.antt        internal/vt/layout/layout.go: `Compose`. Layout/Panes, Layout/Composed and
--                      Layout/Cursors: what a composed screen shows.
--   Prelude.antt       names, lists, tests and lemmas that the parts share.
--   Tests.antt         runs at concrete inputs.
--
-- How the code corresponds to the model. A struct is a record with the source's fields and a method
-- a function with the source's name in lower case with underscores; a method that changes its
-- receiver returns the new value. A slice is a list and a byte a number below 256; a map is an
-- association list. The mutexes are not modelled: a method that holds one is one step, one that
-- takes it twice is two, and interleavings are the lists of such steps. A panic is a value: `none` where the grid writes past
-- the end of a row, `faulted` where a closed channel is sent to. Other indices are read with a
-- default, and the invariants `IsValid` and `WellFormed` keep them in range.
--
-- The supervisor's loop is a state machine: the state has the place the loop has come to, a step runs
-- from there to the next place, and calls from outside come between any two steps. What a spawn, a
-- process, a write to the output and a clock come to are arguments of the steps.
--
-- Numbers. They are natural numbers, subtraction stops at 0, and where the source can go below 0 the
-- model writes out what the source does there. Lengths and offsets stay far below 2 ^ 63; a parameter
-- of a control sequence can be as large as 2 ^ 63 - 1, and a sum with one that is larger is written
-- out as the negative number that it is. The length of a frame is written into 32 bits by division and remainder, and `strconv.Atoi` fails from
-- 2 ^ 63 on, where its value is 2 ^ 63 - 1.
--
-- Fuel. `scan` in Modes.antt runs on the length of its input and one more: every round reads at
-- least one byte, so it never runs out. `itoa` has room for 19 digits, as many as a Go `int`. All else is structural.
--
-- Parameters. The buffer's picture of a full-screen program is an `Emulator`, a record of what the
-- buffer calls of internal/vt/grid and internal/vt/render. What encoding/json makes of a definition
-- is `encode` and `decode`; which of the system calls of the registry fail is an argument too. The stream that frames are written to is
-- an argument, and so is `combining`, the categories of the package unicode that take no column.
--
-- Not modelled: the log file and its writer, which the buffer waits for when it closes; that a
-- supervisor tells its watchers of every status; rendering;
-- processes, system calls, sockets and files; the daemon's goroutines; the command line.
mod Prelude
pub mod Restart
pub mod Supervisor
pub mod Registry
pub mod Watchers
pub mod PrefixKey
pub mod Frame
pub mod Output
pub mod Modes
pub mod Grid
pub mod Width
pub mod Parser
pub mod Layout
pub mod Tests
