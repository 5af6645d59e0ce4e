-- ===== src/Effects.antt =====
-- crates/effects: the durable record of every external mutation, from its preparation to its
-- settlement.
pub mod Record
pub mod Contract
pub mod Executor
pub mod Reconcile
pub mod Moves
pub mod Claims
pub mod Progress
pub mod History
pub mod Fencing
pub mod Policy
pub mod Axes
pub mod Evidence
pub mod Recovery
