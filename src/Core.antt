-- ===== src/Core.antt =====
-- crates/sovereign-config-core/src: the version-free domain types every crate shares.
pub mod Connection
pub mod Managed
pub mod Path
pub mod Value
