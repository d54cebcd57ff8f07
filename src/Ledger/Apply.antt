-- ===== src/Ledger/Apply.antt =====
-- ledger_executor.py, `_apply`: one module for each group of command types. A branch returns the
-- mutation count and the transaction, or raises.
pub mod SavePlan
pub mod Repair
pub mod Proposal
pub mod Recall
pub mod Incidents
pub mod Recovery
