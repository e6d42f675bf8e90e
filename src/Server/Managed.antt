-- ===== src/Server/Managed.antt =====
-- managed.rs and its children: the managed connections, each an account of the identity provider
-- with a credential, and a row that follows its lifecycle.
pub mod Identity
pub mod Provider
pub mod Exec
pub mod Store
pub mod Lifecycle
pub mod Wire
pub mod Tests
pub mod Provisioning
pub mod Service
