-- ===== src/Modes/Rounds.antt =====
-- internal/fabric/termmodes.go: the loop of `Feed` ends, because every round reads at least a byte.
use gozellij.Prelude.{◌<◌}
use gozellij.Modes.{Escape, read, cut}

-- A sequence that was read took at least one byte.
abbrev Advances : Escape → Type 0
Advances cut = Unit {0}
Advances (read t n) = 0 < n
