-- ===== src/Permissions.antt =====
-- agent-os/crates/permissions/src/capabilities.rs: the catalogue of capabilities and how it stands to
-- the pairs of the identity crate.
pub mod Catalogue
pub mod Agreement
