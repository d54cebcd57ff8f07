-- ===== src/Tests.antt =====
-- Witnesses: each conditional theorem at a concrete input, on one operating day.
mod Fixtures
mod Policies
mod Access
mod Commands
mod Sessions
mod Plans
mod Guards
mod Tomorrow
mod Custody
