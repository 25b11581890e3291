-- ===== src/Parser.antt =====
-- internal/vt/grid/parser.go: the state machine that turns bytes into operations on the grid.
pub mod State
pub mod Numbers
pub mod Sgr
pub mod Utf8
pub mod Lines
pub mod Control
pub mod Strings
pub mod Escape
pub mod Csi
pub mod Feed
pub mod Lookahead
pub mod Split
pub mod Safety
