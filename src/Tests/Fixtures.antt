-- ===== src/Tests/Fixtures.antt =====
-- One operating day of one tenant, with libraries whose answers are easy to follow.
use full_shelf.Prelude.{
  String, true, false, Option, none, some, List, [], ◌∷◌, ◌==◌, or_text, if◌then◌else◌,
}
use full_shelf.Evidence.{
  PartnerCustodyConfirmationDetails, PartnerCustodyProposal, QuotedStringClaim,
}
use full_shelf.Ledger.Json.{null, num, text, obj, end, field, get_text}
use full_shelf.Ledger.Rows.{LotRow, OrderRow, IncidentRow}
use full_shelf.Ledger.Database.{Database}
use full_shelf.Ledger.Commands.{Environment, Identity}

abbrev pub details : PartnerCustodyConfirmationDetails
details = record {
  schema_version = "partner-custody-confirmation.v1";
  partner_id = "PARTNER-1";
  site_id = "SITE-1";
  custody_node_id = "NODE-1";
  lot_id = "LOT-1";
  expected_cases = 12;
  expected_acknowledgment_status = "UNCONFIRMED";
  requested_acknowledgment_status = "CONFIRMED";
  hold_incident_id = "HOLD-1";
  operating_day = "2026-07-15";
  source_task_name = "TASK-1";
}

-- A digest that is the document's own text, and a document whose text is its role.
abbrev pub env : Environment
env = record {
  sha256_hex = λ s. s;
  prefix = λ n s. s;
  upper = λ s. s;
  strip = λ s. s;
  dumps = λ j. "document";
  dumps_compact = λ j. or_text (get_text "agent_role" j) "document";
  loads = λ s.
      if s == "diff"
      then some (
          obj (
            field "pickup_cases" (num 10) (
              field "pickup_order_id" (text "ORD-2") (
                field "reroute_cases" (num 30) (
                  field "reroute_order_id" (text "ORD-1")
                    (field "reroute_target_vehicle" (text "VEH-1") end))))))
      else none;
  payload_dump = λ p. null;
  proposal_dump = λ p. null;
  details_dump = λ d. "details";
  details_load = λ s. some details;
  is_tenant_id = λ s. true;
  parse_instant = λ s. some 100;
  parse_date = λ s. some 20;
  instant_text = λ n. "2026-07-15T08:00:00Z";
  instant_day_text = λ n. "2026-07-15";
  compact_day = λ n. "20260715";
  now = 50;
}

abbrev pub tenant : String
tenant = "bank-20260715"

abbrev pub allowed : List String
allowed = tenant ∷ []

abbrev pub caller : Identity
caller = record { subject = "SUB-1"; email = "planner@bank" }

abbrev pub other_caller : Identity
other_caller = record { subject = "SUB-2"; email = "coordinator@bank" }

abbrev pub order_1 : OrderRow
order_1 = record {
  tenant_id = tenant;
  plan_id = "PLAN-1";
  revision = "R1";
  order_id = "ORD-1";
  destination_agency_id = "AG-1";
  destination_agency_name = "Agency one";
  cases = 30;
  lot_id = "LOT-2";
  assigned_vehicle_id = some "VEH-2";
  status = "PLANNED";
}

abbrev pub order_2 : OrderRow
order_2 = record order_1 { order_id = "ORD-2"; cases = 10 }

abbrev pub recall : IncidentRow
recall = record {
  tenant_id = tenant;
  incident_id = "INC-1";
  parent_coordinator_id = "COORD-1";
  incident_type = "FOOD_SAFETY_RECALL";
  status = "PARTIALLY_CONTAINED";
  affected_lot_id = "LOT-1";
  details = "{}";
  terminal_state = "PARTIALLY_CONTAINED";
}

abbrev pub lot_1 : LotRow
lot_1 = record {
  tenant_id = tenant;
  lot_id = "LOT-1";
  code = "A";
  produce_type = "greens";
  hazard_status = "SAFE";
  total_cases = 40;
}

-- A lot that is confirmed safe, beside one that is only not known to be unsafe.
abbrev pub lot_2 : LotRow
lot_2 = record lot_1 { lot_id = "LOT-2"; hazard_status = "CLEAR_SAFE" }

abbrev pub base : Database
base = record {
  tenants = record { tenant_id = tenant; name = "Bank" } ∷ [];
  plan_revisions =
      record { tenant_id = tenant; plan_id = "PLAN-1"; revision = "R1"; status = "ACTIVE" } ∷ [];
  lots = lot_1 ∷ lot_2 ∷ [];
  vehicles =
      record {
        tenant_id = tenant;
        vehicle_id = "VEH-1";
        name = "Truck one";
        max_capacity_cases = 60;
        current_load_cases = 20;
        is_operational = true;
      }
      ∷ [];
  orders = order_1 ∷ order_2 ∷ [];
  custody_nodes =
      record {
        tenant_id = tenant;
        node_id = "NODE-1";
        node_type = "PARTNER";
        name = "Pantry";
        on_hand_cases = 12;
        acknowledgment_status = "UNCONFIRMED";
      }
      ∷ [];
  custody_edges =
      record {
        tenant_id = tenant;
        edge_id = "EDGE-1";
        source_node_id = "NODE-0";
        target_node_id = "NODE-1";
        lot_id = "LOT-1";
        case_count = 12;
        is_sub_distribution = true;
      }
      ∷ [];
  plan_constraints = [];
  approvals =
      record {
        tenant_id = tenant;
        approval_id = "APP-1";
        incident_id = "INC-1";
        plan_id = "PLAN-1";
        operating_day = 20;
        authority_scope = "bank-20260715@2026-07-15";
        source_revision = "R1";
        proposed_revision = "R2";
        approver_subject = "SUB-9";
        approver_email = "approver@bank";
        oauth_audience = "AUD";
        plan_diff_hash = "document";
        plan_diff_json = "diff";
        kms_key_version = "KEY";
        kms_signature = "SIG";
        expires_at = 90;
        trace_id = "TRACE-0";
      }
      ∷ [];
  coordinators = [];
  incidents = recall ∷ [];
  inbound_events = [];
  movement_barriers = [];
  recovery_allocations = [];
  recovery_shortfalls =
      record {
        tenant_id = tenant;
        shortfall_id = "SF-1";
        incident_id = "INC-1";
        agency_id = "AG-1";
        cases = 15;
        status = "OPEN";
      }
      ∷ [];
  work_items =
      record {
        tenant_id = tenant;
        work_item_id = "WORK-1";
        incident_id = "INC-1";
        work_type = "PARTNER_CUSTODY_CONFIRMATION";
        status = "OPEN";
        details = "details";
      }
      ∷ [];
  partner_evidence_events = [];
  receipts = [];
}

-- Evidence whose every claim is quoted from its text.
abbrev pub source_text : String
source_text =
    "Pantry holds 12 cases of LOT-1, ISOLATED_IN_QUARANTINE, confirmed 2026-07-15T08:00:00Z"

abbrev pub claim : String → Option QuotedStringClaim
claim s = some (record { value = s; quote = s })

abbrev pub proposal : PartnerCustodyProposal
proposal = record {
  incident_id = "INC-1";
  partner_id = "PARTNER-1";
  site_id = "SITE-1";
  custody_node_id = "NODE-1";
  work_item_id = "WORK-1";
  expected_acknowledgment_status = "UNCONFIRMED";
  requested_acknowledgment_status = "CONFIRMED";
  lot = claim "LOT-1";
  quantity = some (record { value = 12; quote = "12 cases" });
  location = claim "Pantry";
  disposition = claim "ISOLATED_IN_QUARANTINE";
  confirmation_time = claim "2026-07-15T08:00:00Z";
  requested_mutation = some "CONFIRM_CUSTODY";
  abstain = false;
}
