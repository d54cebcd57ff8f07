-- ===== src/Ledger/Rows.antt =====
-- infra/spanner/schema.sql and infra/spanner/migrations/*.sql: the rows of the authoritative
-- database, with the columns that the ledger reads or writes. Commit timestamps are left out.
mod Plans
mod Incidents
pub use Plans.*
pub use Incidents.*
