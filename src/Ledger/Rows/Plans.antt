-- ===== src/Ledger/Rows/Plans.antt =====
-- infra/spanner/schema.sql: tenants, plans and their resources, approvals.
use full_shelf.Prelude.{ℕ, String, Bool, Option}

pub record TenantRow : Type 0 where
  pub tenant_id : String
  pub name : String

pub record PlanRevisionRow : Type 0 where
  pub tenant_id : String
  pub plan_id : String
  pub revision : String
  pub status : String

pub record LotRow : Type 0 where
  pub tenant_id : String
  pub lot_id : String
  pub code : String
  pub produce_type : String
  pub hazard_status : String
  pub total_cases : ℕ

pub record VehicleRow : Type 0 where
  pub tenant_id : String
  pub vehicle_id : String
  pub name : String
  pub max_capacity_cases : ℕ
  pub current_load_cases : ℕ
  pub is_operational : Bool

pub record OrderRow : Type 0 where
  pub tenant_id : String
  pub plan_id : String
  pub revision : String
  pub order_id : String
  pub destination_agency_id : String
  pub destination_agency_name : String
  pub cases : ℕ
  pub lot_id : String
  pub assigned_vehicle_id : Option String
  pub status : String

pub record CustodyNodeRow : Type 0 where
  pub tenant_id : String
  pub node_id : String
  pub node_type : String
  pub name : String
  pub on_hand_cases : ℕ
  pub acknowledgment_status : String

pub record CustodyEdgeRow : Type 0 where
  pub tenant_id : String
  pub edge_id : String
  pub source_node_id : String
  pub target_node_id : String
  pub lot_id : String
  pub case_count : ℕ
  pub is_sub_distribution : Bool

pub record PlanConstraintRow : Type 0 where
  pub tenant_id : String
  pub plan_id : String
  pub revision : String
  pub constraint_type : String
  pub subject_id : String
  pub details : String
  pub priority : ℕ

-- A date is its day number, and an instant its number of microseconds.
pub record ApprovalRow : Type 0 where
  pub tenant_id : String
  pub approval_id : String
  pub incident_id : String
  pub plan_id : String
  pub operating_day : ℕ
  pub authority_scope : String
  pub source_revision : String
  pub proposed_revision : String
  pub approver_subject : String
  pub approver_email : String
  pub oauth_audience : String
  pub plan_diff_hash : String
  pub plan_diff_json : String
  pub kms_key_version : String
  pub kms_signature : String
  pub expires_at : ℕ
  pub trace_id : String
