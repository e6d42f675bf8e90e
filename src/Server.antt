-- ===== src/Server.antt =====
-- crates/sovereign-config-server/src: the service behind every protocol version.
pub mod Rpc
pub mod Auth
pub mod Audit
pub mod Encryption
pub mod Values
pub mod Managed
