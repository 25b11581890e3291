-- ===== src/Output.antt =====
-- internal/fabric/output.go: the ring of recent output, its readers, and the two together.
pub mod Ring
pub mod Replay
pub mod Subscriber
pub mod Buffer
