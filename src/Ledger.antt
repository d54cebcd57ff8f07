-- ===== src/Ledger.antt =====
-- The plan ledger.
pub mod Json
pub mod Rows
pub mod Database
pub mod Commit
pub mod Payloads
pub mod Commands
pub mod Digests
pub mod Validators
pub mod Queries
pub mod Apply
pub mod NextDay
pub mod Partner
pub mod Execute
