-- ===== src/Resources.antt =====
-- agent-os/crates/resources/src/lib.rs: Kinds is `ResourceUnit`, Reservations the service functions.
pub mod Kinds
pub mod Reservations
pub mod Outcomes
pub mod Moves
pub mod Delegated
pub mod Budget
pub mod History
pub mod Owners
