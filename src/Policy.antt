-- ===== src/Policy.antt =====
-- The deterministic policy rules, which neither read nor write the database.
pub mod Models
pub mod Lifecycle
pub mod Capacity
pub mod Reconciliation
