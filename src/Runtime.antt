-- ===== src/Runtime.antt =====
-- crates/runtime: the state machine of runs and the services that move them.
pub mod State
pub mod Transition
pub mod Claim
pub mod Lifecycle
pub mod Moves
pub mod Ownership
pub mod Cancel
pub mod Settled
pub mod Subtree
