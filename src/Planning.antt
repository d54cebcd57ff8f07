-- ===== src/Planning.antt =====
-- apps/orchestrator/src/main.py: the planners, which derive proposals from the authoritative state.
-- What they derive is a command for the ledger, which checks it again.
pub mod Recovery
pub mod Candidates
pub mod Repair
pub mod Tomorrow
pub mod Graph
