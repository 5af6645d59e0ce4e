-- ===== src/Workspace.antt =====
-- agent-os/crates/workspace/src/coordinator.rs.
pub mod Leases
pub mod Moves
pub mod Exclusive
pub mod History
pub mod Lock
pub mod Refinement
