-- ===== src/Ledger/Rows/Incidents.antt =====
-- infra/spanner/schema.sql: coordinators, incidents, recovery, evidence and receipts.
use full_shelf.Prelude.{ℕ, String, Option}

pub record CoordinatorRow : Type 0 where
  pub tenant_id : String
  pub coordinator_id : String
  pub state : String
  pub checkpoint : String
  pub active_plan_revision : String
  pub child_incidents : String

pub record IncidentRow : Type 0 where
  pub tenant_id : String
  pub incident_id : String
  pub parent_coordinator_id : String
  pub incident_type : String
  pub status : String
  pub affected_lot_id : String
  pub details : String
  pub terminal_state : String

pub record InboundEventRow : Type 0 where
  pub tenant_id : String
  pub source_event_id : String
  pub event_type : String
  pub status : String
  pub payload : String

pub record MovementBarrierRow : Type 0 where
  pub tenant_id : String
  pub barrier_id : String
  pub incident_id : String
  pub lot_id : String
  pub status : String
  pub reason : String

pub record RecoveryAllocationRow : Type 0 where
  pub tenant_id : String
  pub allocation_id : String
  pub incident_id : String
  pub agency_id : String
  pub lot_id : String
  pub cases : ℕ
  pub status : String

pub record RecoveryShortfallRow : Type 0 where
  pub tenant_id : String
  pub shortfall_id : String
  pub incident_id : String
  pub agency_id : String
  pub cases : ℕ
  pub status : String

pub record WorkItemRow : Type 0 where
  pub tenant_id : String
  pub work_item_id : String
  pub incident_id : String
  pub work_type : String
  pub status : String
  pub details : String

pub record PartnerEvidenceRow : Type 0 where
  pub tenant_id : String
  pub source_event_id : String
  pub operating_day : String
  pub incident_id : String
  pub partner_id : String
  pub source_occurred_at : ℕ
  pub source_text : String
  pub source_sha256 : String
  pub proposal_sha256 : String
  pub policy_decision : String
  pub policy_reasons_json : String
  pub receipt_id : String
  pub domain_mutations_applied : ℕ
  pub evidence_mutations_applied : ℕ

pub record ReceiptRow : Type 0 where
  pub tenant_id : String
  pub receipt_id : String
  pub action_id : String
  pub plan_revision_id : String
  pub action_type : String
  pub status : String
  pub mutations_applied : ℕ
  pub message : String
  pub trace_id : String
  pub idempotency_key : String
  pub caller_subject : String
  pub caller_email : String
  pub agent_role : String
  -- `None` on receipts that were written before the column was there.
  pub request_fingerprint : Option String
  pub evidence_mutations_applied : Option ℕ
