-- ===== src/Supervisor/Alive.antt =====
-- internal/fabric/supervisor.go: the processes of one supervisor that are alive.
use gozellij.Prelude.{ℕ, ◌+◌, ◌-◌}
use gozellij.Supervisor.{Supervisor, Point}
use gozellij.Supervisor
use gozellij.Supervisor.Steps.{Loop, Reach}
use gozellij.Supervisor.Steps

-- A process comes to life for the supervisor when it is spawned or taken over, and is gone when it
-- has exited, of itself or told to.
abbrev pub count : {s u : Supervisor} → Loop s u → ℕ → ℕ
count (Steps.adopts s p e) n = n + 1
count (Steps.spawns s p e) n = n + 1
count (Steps.exits s p e) n = n - 1
count (Steps.dies s p e) n = n - 1
count l n = n

unfoldable pub alive : {s u : Supervisor} → Reach s u → ℕ
alive Steps.here = 0
alive (Steps.loops r l) = count l (alive r)
alive (Steps.calls r c) = alive r

-- The places at which one is.
abbrev alive_at : Point → ℕ
alive_at (Point.spawned p) = 1
alive_at (Point.watching p) = 1
alive_at (Point.stopping p) = 1
alive_at a = 0
