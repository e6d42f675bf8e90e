-- ===== src/Server/Values.antt =====
-- values/: the `Configuration` service, from its validation to its storage.
pub mod Paths
pub mod Content
pub mod Authz
pub mod Subtree
pub mod Exec
pub mod Store
pub mod Service
mod Tests
