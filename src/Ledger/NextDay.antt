-- ===== src/Ledger/NextDay.antt =====
-- ledger_executor.py: CREATE_NEXT_DAY_DRAFT.
pub mod Constraints
pub mod Checks
pub mod Draft
pub mod Passed
pub mod Stock
