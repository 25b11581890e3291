-- ===== src/Grid.antt =====
-- internal/vt: the terminal emulator, which turns what a program writes into a screen.
pub mod Cell
pub mod History
pub mod Term
pub mod Charset
pub mod Scroll
pub mod Draw
pub mod Move
pub mod Paragraphs
pub mod Wrap
pub mod Reflow
pub mod Resize
pub mod Ops
pub mod Shape
