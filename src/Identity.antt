-- ===== src/Identity.antt =====
-- agent-os/crates/identity/src/delegation.rs: capabilities, delegation chains and what their
-- validation promises.
pub mod Capabilities
pub mod Order
pub mod Chains
pub mod Validation
pub mod Narrowing
pub mod Delegation
