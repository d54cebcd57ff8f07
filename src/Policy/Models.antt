-- ===== src/Policy/Models.antt =====
-- packages/domain/full_shelf_domain/models.py: the enumerations and records of the domain.
use full_shelf.Prelude.{ℕ, String, Bool, true, false, Option}
use full_shelf.Prelude.Int.{ℤ}

pub data PlanStatus : Type 0 where
  active superseded invalidated_recall : PlanStatus

pub data IncidentStatus : Type 0 where
  detected scoping containment_in_progress partially_contained contained closed : IncidentStatus
  -- The truck-disruption lifecycle.
  active resolved : IncidentStatus

pub record Vehicle : Type 0 where
  pub vehicle_id : String
  pub name : String
  pub max_capacity_cases : ℤ
  pub current_load_cases : ℤ
  pub is_operational : Bool

pub record Order : Type 0 where
  pub order_id : String
  pub destination_agency_id : String
  pub cases : ℤ
  pub lot_id : String
  pub assigned_vehicle_id : Option String

pub record PlanDiff : Type 0 where
  pub source_revision : String
  pub proposed_revision : String
  pub reroute_order_id : String
  pub reroute_cases : ℕ
  pub reroute_target_vehicle : String
  pub pickup_order_id : String
  pub pickup_cases : ℕ
  pub plan_diff_hash : String

pub record CustodyNode : Type 0 where
  pub node_id : String
  pub name : String
  pub on_hand_cases : ℤ

pub record CustodyEdge : Type 0 where
  pub edge_id : String
  pub source_node_id : String
  pub target_node_id : String
  pub lot_id : String
  pub case_count : ℤ
  pub is_sub_distribution : Bool

-- `status is other`
unfoldable pub plan_status_eq : PlanStatus → PlanStatus → Bool
plan_status_eq PlanStatus.active PlanStatus.active = true
plan_status_eq PlanStatus.superseded PlanStatus.superseded = true
plan_status_eq PlanStatus.invalidated_recall PlanStatus.invalidated_recall = true
plan_status_eq _ _ = false

unfoldable pub incident_status_eq : IncidentStatus → IncidentStatus → Bool
incident_status_eq IncidentStatus.detected IncidentStatus.detected = true
incident_status_eq IncidentStatus.scoping IncidentStatus.scoping = true
incident_status_eq IncidentStatus.containment_in_progress IncidentStatus.containment_in_progress =
    true
incident_status_eq IncidentStatus.partially_contained IncidentStatus.partially_contained = true
incident_status_eq IncidentStatus.contained IncidentStatus.contained = true
incident_status_eq IncidentStatus.closed IncidentStatus.closed = true
incident_status_eq IncidentStatus.active IncidentStatus.active = true
incident_status_eq IncidentStatus.resolved IncidentStatus.resolved = true
incident_status_eq _ _ = false
