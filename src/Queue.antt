-- ===== src/Queue.antt =====
-- agent-os/crates/message-queue/src/in_memory.rs: State is the adapter and its operations, the other
-- modules hold what its collections have to do with each other.
pub mod State
pub mod Keys
pub mod Sound
pub mod Moves
pub mod Eviction
pub mod Bounds
pub mod History
