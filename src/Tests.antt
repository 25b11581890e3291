-- ===== src/Tests.antt =====
-- Runs of the models at concrete inputs, and the theorems applied to them.
mod Buffers
mod Streams
mod Screens
mod Parsing
mod Services
mod Definitions
mod Watching
mod Keys
