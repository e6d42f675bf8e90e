-- ===== src/Server/Audit.antt =====
-- audit/: the audit trail.
pub mod Narrative
pub mod Events
pub mod Store
pub mod Coalescing
pub mod Quoting
pub mod Tests
