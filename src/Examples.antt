-- ===== src/Examples.antt =====
-- The properties at concrete inputs, with tests of the operations.
mod Data
mod Graphs
mod Runs
mod Effects
mod Timers
mod Leases
mod Reservations
mod Cancellation
mod Messages
mod Delegation
