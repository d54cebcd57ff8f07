-- ===== src/Ledger/Payloads/Incidents.antt =====
-- ledger_commands.py: the payloads about coordinators, incidents, recovery and partner evidence.
use full_shelf.Prelude.{ℕ, String, Option, List}
use full_shelf.Evidence.{PartnerCustodyProposal}
use full_shelf.Ledger.Json.{Fields}

pub record RecoveryAllocationPayload : Type 0 where
  pub allocation_id : String
  pub agency_id : String
  pub lot_id : String
  pub cases : ℕ

pub record RecoveryShortfallPayload : Type 0 where
  pub shortfall_id : String
  pub agency_id : String
  pub cases : ℕ

pub record AllocateSafeStockPayload : Type 0 where
  pub incident_id : String
  pub allocations : List RecoveryAllocationPayload
  pub shortfalls : List RecoveryShortfallPayload

pub record PersistCoordinatorPayload : Type 0 where
  pub coordinator_id : String
  pub state : String
  pub checkpoint : String
  pub active_plan_revision : String
  pub child_incident_ids : List String

pub record OpenRecallIncidentPayload : Type 0 where
  pub incident_id : String
  pub coordinator_id : String
  pub lot_id : String
  pub source_event_id : String
  pub source_publish_time : String
  pub model_armor_correlation_id : String
  pub details : Fields

pub record RecordAcknowledgmentHoldPayload : Type 0 where
  pub incident_id : String
  pub hold_incident_id : String
  pub coordinator_id : String
  pub lot_id : String
  pub site_id : String
  pub unconfirmed_cases : ℕ
  pub task_name : String
  pub delivery_subject : String
  pub delivery_email : String
  pub delivery_audience : String
  pub partner_id : String
  pub custody_node_id : String
  pub operating_day : String

-- `source_occurred_at` is an instant; its ISO texts come from the environment.
pub record ProcessPartnerEvidencePayload : Type 0 where
  pub event_type : String
  pub source_event_id : String
  pub operating_day : String
  pub source_occurred_at : ℕ
  pub source_text : String
  pub source_sha256 : String
  pub partner_id : String
  pub callback_provenance : String
  pub proposal : PartnerCustodyProposal

pub record SetIncidentStatusPayload : Type 0 where
  pub incident_id : String
  pub expected_status : String
  pub new_status : String
  pub terminal_state : String
  pub unconfirmed_cases : Option ℕ

pub record ActivateMovementBarrierPayload : Type 0 where
  pub barrier_id : String
  pub incident_id : String
  pub lot_id : String
  pub reason : String
  pub work_item_id : String

pub record RecordRefusalPayload : Type 0 where
  pub incident_id : String
  pub subject_id : String
  pub reason : String
  pub affected_cases : ℕ
