-- ===== src/Ledger/Commands.antt =====
-- ledger_commands.py: `LedgerCommand` with its payload already typed, and what the ledger takes
-- from libraries. Pydantic's field constraints (lengths, patterns, literals) are the caller's
-- part; the validators that the source writes itself are in Ledger/Validators.
use full_shelf.Prelude.{ℕ, String, Bool, Option}
use full_shelf.Evidence.{PartnerCustodyConfirmationDetails, PartnerCustodyProposal}
use full_shelf.Ledger.Json.{Json}
use full_shelf.Ledger.Payloads.{
  SavePlanRevisionPayload, PersistRepairApprovalPayload, ActivateApprovedRepairPlanPayload,
  InvalidatePlanPayload, AllocateSafeStockPayload, PersistCoordinatorPayload,
  OpenRecallIncidentPayload, RecordAcknowledgmentHoldPayload, SetIncidentStatusPayload,
  ActivateMovementBarrierPayload, RecordRefusalPayload, CreateNextDayDraftPayload,
  PersistRepairProposalPayload, ProcessPartnerEvidencePayload,
}

pub data Payload : Type 0 where
  save_plan_revision : SavePlanRevisionPayload → Payload
  persist_repair_approval : PersistRepairApprovalPayload → Payload
  activate_approved_repair_plan : ActivateApprovedRepairPlanPayload → Payload
  invalidate_plan : InvalidatePlanPayload → Payload
  allocate_safe_stock : AllocateSafeStockPayload → Payload
  persist_coordinator : PersistCoordinatorPayload → Payload
  open_recall_incident : OpenRecallIncidentPayload → Payload
  record_acknowledgment_hold : RecordAcknowledgmentHoldPayload → Payload
  set_incident_status : SetIncidentStatusPayload → Payload
  activate_movement_barrier : ActivateMovementBarrierPayload → Payload
  record_refusal : RecordRefusalPayload → Payload
  create_next_day_draft : CreateNextDayDraftPayload → Payload
  persist_repair_proposal : PersistRepairProposalPayload → Payload
  process_partner_evidence : ProcessPartnerEvidencePayload → Payload

-- `command_type.value`: the constructor says which type it is.
unfoldable pub command_type : Payload → String
command_type (save_plan_revision p) = "SAVE_PLAN_REVISION"
command_type (persist_repair_approval p) = "PERSIST_REPAIR_APPROVAL"
command_type (activate_approved_repair_plan p) = "ACTIVATE_APPROVED_REPAIR_PLAN"
command_type (invalidate_plan p) = "INVALIDATE_PLAN"
command_type (allocate_safe_stock p) = "ALLOCATE_SAFE_STOCK"
command_type (persist_coordinator p) = "PERSIST_COORDINATOR"
command_type (open_recall_incident p) = "OPEN_RECALL_INCIDENT"
command_type (record_acknowledgment_hold p) = "RECORD_ACKNOWLEDGMENT_HOLD"
command_type (set_incident_status p) = "SET_INCIDENT_STATUS"
command_type (activate_movement_barrier p) = "ACTIVATE_MOVEMENT_BARRIER"
command_type (record_refusal p) = "RECORD_REFUSAL"
command_type (create_next_day_draft p) = "CREATE_NEXT_DAY_DRAFT"
command_type (persist_repair_proposal p) = "PERSIST_REPAIR_PROPOSAL"
command_type (process_partner_evidence p) = "PROCESS_PARTNER_EVIDENCE"

pub record LedgerCommand : Type 0 where
  pub command_id : String
  pub idempotency_key : String
  pub tenant_id : String
  pub incident_id : String
  pub agent_role : String
  pub expected_plan_revision : Option String
  pub trace_id : String
  pub payload : Payload

-- `VerifiedGoogleIdentity`, as far as a receipt names it.
pub record Identity : Type 0 where
  pub subject : String
  pub email : String

-- What the ledger takes from Python's library, Pydantic and the clock.
pub record Environment : Type 0 where
  -- `hashlib.sha256(text.encode()).hexdigest()`, `text[:n]`, `text.upper()`, `text.strip()`
  pub sha256_hex : String → String
  pub prefix : ℕ → String → String
  pub upper : String → String
  pub strip : String → String
  -- `json.dumps(document, sort_keys=True)`, and with `separators=(",", ":")`; `json.loads`
  pub dumps : Json → String
  pub dumps_compact : Json → String
  pub loads : String → Option Json
  -- `payload.model_dump(mode="json")`
  pub payload_dump : Payload → Json
  pub proposal_dump : PartnerCustodyProposal → Json
  -- `details.model_dump_json()` and `PartnerCustodyConfirmationDetails.model_validate_json(text)`
  pub details_dump : PartnerCustodyConfirmationDetails → String
  pub details_load : String → Option PartnerCustodyConfirmationDetails
  -- `re.fullmatch(r"[a-z0-9][a-z0-9-]{2,54}", text)`
  pub is_tenant_id : String → Bool
  -- `datetime.fromisoformat(text)` as an instant, `date.fromisoformat(text)` as a day
  pub parse_instant : String → Option ℕ
  pub parse_date : String → Option ℕ
  -- `instant.isoformat()`, `instant.date().isoformat()`, `day.strftime("%Y%m%d")`
  pub instant_text : ℕ → String
  pub instant_day_text : ℕ → String
  pub compact_day : ℕ → String
  -- `datetime.now(timezone.utc)`
  pub now : ℕ

-- What `execute` returns of a receipt: the columns of `_receipt`, and on a replay the caller too.
pub record Receipt : Type 0 where
  pub tenant_id : String
  pub receipt_id : String
  pub command_id : String
  pub plan_revision_id : String
  pub command_type : String
  pub status : String
  pub mutations_applied : ℕ
  pub evidence_mutations_applied : Option ℕ
  pub message : String
  pub trace_id : String
  pub caller : Option (String × String × String)

pub record CommandExecutionResult : Type 0 where
  pub receipt : Receipt
  pub idempotent_replay : Bool
  pub additional_mutations : ℕ
