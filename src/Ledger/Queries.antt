-- ===== src/Ledger/Queries.antt =====
-- ledger_executor.py: the queries that several commands share.
use full_shelf.Prelude.{String, Bool, ◌&&◌, Option, none, some, ◌==◌, first, select, any}
use full_shelf.Ledger.Rows.{PlanRevisionRow, IncidentRow, ReceiptRow}
use full_shelf.Ledger.Database.{Database}
use full_shelf.Ledger.Commands.{LedgerCommand, Receipt}

abbrev pub revision_of : Option PlanRevisionRow → Option String
revision_of none = none
revision_of (some r) = some r.revision

abbrev pub status_of : Option PlanRevisionRow → Option String
status_of none = none
status_of (some r) = some r.status

-- `WHERE tenant_id = @tenant_id AND status = 'ACTIVE'`
abbrev pub is_active_of : String → PlanRevisionRow → Bool
is_active_of tenant_id r = r.tenant_id == tenant_id && r.status == "ACTIVE"

-- `_active_revision`: the newest one.
unfoldable pub active_revision : Database → String → Option String
active_revision db tenant_id =
    revision_of (first (select (is_active_of tenant_id) db.plan_revisions))

-- `_revision_status`
unfoldable pub revision_status : Database → String → String → Option String
revision_status db tenant_id revision = status_of (
    first (
      select (λ (r : PlanRevisionRow). r.tenant_id == tenant_id && r.revision == revision)
        db.plan_revisions))

-- The status of one plan at one revision.
unfoldable pub plan_status : Database → String → String → String → Option String
plan_status db tenant_id plan_id revision = status_of (
    first (
      select
        (λ (r : PlanRevisionRow).
          r.tenant_id == tenant_id && (r.plan_id == plan_id && r.revision == revision))
        db.plan_revisions))

-- `_incident_exists`
unfoldable pub incident_exists : Database → String → String → Bool
incident_exists db tenant_id incident_id =
    any (λ (r : IncidentRow). r.tenant_id == tenant_id && r.incident_id == incident_id) db.incidents

-- `WHERE tenant_id = @tenant_id AND idempotency_key = @idempotency_key`
abbrev pub is_receipt_of : LedgerCommand → ReceiptRow → Bool
is_receipt_of c r = r.tenant_id == c.tenant_id && r.idempotency_key == c.idempotency_key

-- `_find_receipt`, with the fingerprint still in it.
unfoldable pub find_receipt : Database → LedgerCommand → Option ReceiptRow
find_receipt db c = first (select (is_receipt_of c) db.receipts)

-- The dictionary that `_find_receipt` returns, after the fingerprint is popped.
unfoldable pub receipt_of_row : ReceiptRow → Receipt
receipt_of_row r = record {
  tenant_id = r.tenant_id;
  receipt_id = r.receipt_id;
  command_id = r.action_id;
  plan_revision_id = r.plan_revision_id;
  command_type = r.action_type;
  status = r.status;
  mutations_applied = r.mutations_applied;
  evidence_mutations_applied = r.evidence_mutations_applied;
  message = r.message;
  trace_id = r.trace_id;
  caller = some (r.caller_subject, r.caller_email, r.agent_role);
}
