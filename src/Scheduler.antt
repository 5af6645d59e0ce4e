-- ===== src/Scheduler.antt =====
-- crates/scheduler: durable one-shot timers.
pub mod Timers
pub mod Races
pub mod Settled
pub mod History
