-- ===== src/Server/Values/Service.antt =====
-- values/service.rs: the operations of the `Configuration` service, each as its caller sees it:
-- validation in the code's order, then the statements of one transaction, then its commit.
pub mod Common
pub mod Itemize
pub mod Writes
pub mod Put
pub mod Delete
pub mod Alias
pub mod Replace
pub mod Reads
pub mod Steady
pub mod SteadyContents
pub mod Leaves
pub mod Removed
pub mod Atomicity
pub mod Itemized
pub mod LockOrder
pub mod Audited
pub mod Visible
pub mod Sealed
