-- ===== src/Ledger/Payloads/Plans.antt =====
-- ledger_commands.py: the payloads about a plan, its repair and its invalidation. A field whose
-- annotation allows one literal only is left out where no rule and no row reads it.
use full_shelf.Prelude.{ℕ, String, Bool, Option, List}

pub record PlanOrderPayload : Type 0 where
  pub order_id : String
  pub destination_agency_id : String
  pub destination_agency_name : String
  pub cases : ℕ
  pub lot_id : String
  pub assigned_vehicle_id : Option String
  pub status : String

pub record OperatingLotPayload : Type 0 where
  pub lot_id : String
  pub code : String
  pub produce_type : String
  pub hazard_status : String
  pub total_cases : ℕ

pub record OperatingVehiclePayload : Type 0 where
  pub vehicle_id : String
  pub name : String
  pub max_capacity_cases : ℕ
  pub current_load_cases : ℕ
  pub is_operational : Bool

pub record OperatingCustodyNodePayload : Type 0 where
  pub node_id : String
  pub node_type : String
  pub name : String
  pub on_hand_cases : ℕ
  pub acknowledgment_status : String

pub record OperatingCustodyEdgePayload : Type 0 where
  pub edge_id : String
  pub source_node_id : String
  pub target_node_id : String
  pub lot_id : String
  pub case_count : ℕ
  pub is_sub_distribution : Bool

-- `OperatingPlanDefinition` with the fields that `SavePlanRevisionPayload` adds.
pub record SavePlanRevisionPayload : Type 0 where
  pub tenant_name : String
  pub plan_id : String
  pub revision : String
  pub status : String
  pub orders : List PlanOrderPayload
  pub lots : List OperatingLotPayload
  pub vehicles : List OperatingVehiclePayload
  pub custody_nodes : List OperatingCustodyNodePayload
  pub custody_edges : List OperatingCustodyEdgePayload
  pub logical_tenant_id : String
  pub operating_day : String
  pub authority_scope : String

pub record SignedRepairDiffPayload : Type 0 where
  pub reroute_order_id : String
  pub reroute_cases : ℕ
  pub reroute_target_vehicle : String
  pub pickup_order_id : String
  pub pickup_cases : ℕ

pub record PersistRepairProposalPayload : Type 0 where
  pub proposal_id : String
  pub source_event_id : String
  pub plan_id : String
  pub source_revision : String
  pub proposed_revision : String
  pub vehicle_id : String
  pub absorbing_vehicle_capacity_cases : ℕ
  pub absorbing_vehicle_committed_cases : ℕ
  pub plan_diff : SignedRepairDiffPayload

pub record PersistRepairApprovalPayload : Type 0 where
  pub operating_day : String
  pub authority_scope : String
  pub plan_id : String
  pub source_revision : String
  pub proposed_revision : String
  pub approval_id : String
  pub approver_subject : String
  pub approver_email : String
  pub oauth_audience : String
  pub plan_diff_hash : String
  pub kms_key_version : String
  pub kms_signature : String
  pub expires_at : String
  pub plan_diff : SignedRepairDiffPayload

pub record ActivateApprovedRepairPlanPayload : Type 0 where
  pub approval_id : String
  pub operating_day : String
  pub authority_scope : String
  pub plan_id : String
  pub source_revision : String
  pub proposed_revision : String

pub record InvalidatePlanPayload : Type 0 where
  pub plan_id : String
  pub revision : String
  pub reason : String
