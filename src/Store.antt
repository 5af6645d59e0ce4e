-- ===== src/Store.antt =====
-- crates/kernel-store and crates/kernel-store-sqlite: the kernel metadata store as tables, with one
-- module for the repository of each table.
pub mod Models
pub mod Kernel
pub mod Outbox
pub mod Positions
pub mod Runs
pub mod Graph
pub mod Effects
pub mod Leases
pub mod Reservations
pub mod Timers
