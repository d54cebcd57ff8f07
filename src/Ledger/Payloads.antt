-- ===== src/Ledger/Payloads.antt =====
-- packages/domain/full_shelf_domain/ledger_commands.py: the payload of each command type.
mod Plans
mod Incidents
mod NextDay
pub use Plans.*
pub use Incidents.*
pub use NextDay.*
