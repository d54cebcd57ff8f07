-- ===== src/Tests/Commands.antt =====
-- The handlers of the commands on the day of the fixtures.
use full_shelf.Prelude.{
  ℕ, ◌+◌, String, true, false, ◌≡◌, refl, ◌⊎◌, Option, none, some, List, [], ◌∷◌, map, ◌==◌, All,
  is_none, is_in, str_nat,
}
use full_shelf.Prelude.Sorting.{sort_by}
use full_shelf.Prelude.Errors.{ok, err, Error, Result}
use full_shelf.Policy.Models.{IncidentStatus, PlanDiff}
use full_shelf.Policy.Lifecycle.{can_transition, parse_status}
use full_shelf.Evidence.{
  reasons_of, mismatches, assess, assess_quantity, assess_time, anchored, applied, denied,
  verify_partner_custody_proposal, Verdict,
}
use full_shelf.Evidence.Decision.{IsSupported}
use full_shelf.Ledger.Rows.{OrderRow, PartnerEvidenceRow}
use full_shelf.Ledger.Database.{
  Database, insert_rows, has_tenant, has_plan, insert_orders, insert_plan_revisions,
  insert_partner_evidence,
}
use full_shelf.Ledger.Commit.{Transaction, apply_mutation, apply_all, commit}
use full_shelf.Ledger.Payloads.{
  SavePlanRevisionPayload, ActivateApprovedRepairPlanPayload, InvalidatePlanPayload,
  SetIncidentStatusPayload, ActivateMovementBarrierPayload, AllocateSafeStockPayload,
  CreateNextDayDraftPayload, NextDayCandidateVehiclePayload, ProcessPartnerEvidencePayload,
}
use full_shelf.Ledger.Commands.{LedgerCommand, record_refusal}
use full_shelf.Ledger.Json.{get_text, get, get_num, find_field}
use full_shelf.Ledger.Digests.{make_diff, compute_plan_diff_hash, operating_day_authority_id}
use full_shelf.Ledger.Queries.{active_revision, plan_status, incident_exists}
use full_shelf.Ledger.Apply.SavePlan.{check_orders, check_edges, check_references, apply_save_plan}
use full_shelf.Ledger.Apply.SavePlan.Consistency.{IsConsistent, apply_save_plan-IsConsistent}
use full_shelf.Ledger.Apply.Repair.{
  diff_of_json, approval_in_scope, repair_order, repair_orders, set_status, source_orders,
  find_vehicles, find_approvals, check_activation, proposed_row, proposed_order, apply_activate,
  apply_invalidate,
}
use full_shelf.Ledger.Apply.Repair.Activation.{IsChecked, apply_activate-ok}
use full_shelf.Ledger.Apply.Repair.Actives.{
  active_count, apply_invalidate-actives, apply_activate-actives,
}
use full_shelf.Ledger.Apply.Incidents.{
  check_unconfirmed, terminal_state_of, move_incident, apply_status, recall_lot, apply_barrier,
}
use full_shelf.Ledger.Apply.Incidents.Closing.{claims_all, count_at, apply_status-ok}
use full_shelf.Ledger.Apply.Incidents.Barrier.{apply_allocate-barrier}
use full_shelf.Ledger.Apply.Recovery.{apply_allocate}
use full_shelf.Ledger.NextDay.Checks.{
  shortfall_is_open, open_cases, safe_cases, operational, draw, check_stop, draw_stops,
  draw_vehicles, check_candidates,
}
use full_shelf.Ledger.NextDay.Draft.{write_draft, apply_next_day}
use full_shelf.Ledger.NextDay.Stock.{IsStocked, IsLoadable, IsBarred, apply_next_day-IsStocked}
use full_shelf.Ledger.Partner.{Found, find_authority, confirm_custody, apply_partner_evidence}
use full_shelf.Ledger.Partner.Custody.{IsConfirmed, IsRecorded, apply_partner_evidence-custody}
use full_shelf.Tests.Fixtures.{env, tenant, source_text, proposal, order_1, order_2, base}

abbrev command : LedgerCommand
command = record {
  command_id = "CMD-1";
  idempotency_key = "KEY-1";
  tenant_id = tenant;
  incident_id = "INC-1";
  agent_role = "INCIDENT_COORDINATOR";
  expected_plan_revision = some "R1";
  trace_id = "TRACE-1";
  payload =
      record_refusal
        (record { incident_id = "INC-1"; subject_id = "S"; reason = "R"; affected_cases = 0 });
}

abbrev opening : Transaction
opening = record { db = base; buffer = [] }

-- The transaction that a handler leaves, where it succeeds.
abbrev after : Result (ℕ × Transaction) → Transaction
after (ok (n, t)) = t
after (err e) = opening

abbrev written : Result (ℕ × Transaction) → ℕ
written (ok (n, t)) = n
written (err e) = 0

abbrev activation : ActivateApprovedRepairPlanPayload
activation = record {
  approval_id = "APP-1";
  operating_day = "2026-07-15";
  authority_scope = "bank-20260715@2026-07-15";
  plan_id = "PLAN-1";
  source_revision = "R1";
  proposed_revision = "R2";
}

abbrev activated : Transaction
activated = after (apply_activate env command activation opening)

activation-runs : apply_activate env command activation opening ≡ ok (2, activated)
unfolding sort_by apply_activate check_activation diff_of_json approval_in_scope repair_order
    repair_orders source_orders find_vehicles find_approvals make_diff compute_plan_diff_hash
    set_status get_text get get_num find_field
activation-runs = refl

apply_activate-ok_example :
    (checked : PlanDiff × List OrderRow) × IsChecked env command activation base checked
    × (activated.buffer
        ≡ insert_plan_revisions (proposed_row env command activation ∷ [])
          ∷ insert_orders (map (proposed_order env command activation) checked.1)
          ∷ [])
apply_activate-ok_example =
    apply_activate-ok env command activation opening activated 2 activation-runs

abbrev committed : Database
committed = record base {
  plan_revisions =
      record { tenant_id = tenant; plan_id = "PLAN-1"; revision = "R2"; status = "ACTIVE" }
      ∷ record { tenant_id = tenant; plan_id = "PLAN-1"; revision = "R1"; status = "SUPERSEDED" }
      ∷ [];
  orders =
      record order_2 {
        revision = "R2";
        assigned_vehicle_id = none;
        status = "PARTNER_PICKUP_CONVERTED";
      }
      ∷ record order_1 { revision = "R2"; assigned_vehicle_id = some "VEH-1"; status = "REROUTED" }
      ∷ order_1
      ∷ order_2
      ∷ [];
}

activation-commits : commit activated ≡ ok committed
unfolding sort_by apply_activate check_activation diff_of_json approval_in_scope repair_order
    repair_orders source_orders find_vehicles find_approvals make_diff compute_plan_diff_hash
    set_status commit get_text get get_num find_field apply_all apply_mutation insert_rows
    has_tenant has_plan
activation-commits = refl

apply_activate-actives_example :
    (active_count committed tenant ≡ active_count base tenant)
    × (active_revision committed tenant ≡ some "R2")
apply_activate-actives_example =
    apply_activate-actives env command activation base committed activated 2 activation-runs
      activation-commits

abbrev invalidation : InvalidatePlanPayload
invalidation = record { plan_id = "PLAN-1"; revision = "R1"; reason = "recall" }

abbrev invalidated : Transaction
invalidated = after (apply_invalidate command invalidation opening)

invalidation-runs : apply_invalidate command invalidation opening ≡ ok (1, invalidated)
unfolding apply_invalidate set_status
invalidation-runs = refl

apply_invalidate-actives_example :
    (1 + active_count invalidated.db tenant ≡ active_count base tenant)
    × (active_count base tenant ≡ 1 → active_revision invalidated.db tenant ≡ none)
apply_invalidate-actives_example =
    apply_invalidate-actives command invalidation opening invalidated 1 invalidation-runs

abbrev plan : SavePlanRevisionPayload
plan = record {
  tenant_name = "Bank";
  plan_id = "PLAN-2";
  revision = "R1";
  status = "ACTIVE";
  orders =
      record {
        order_id = "ORD-1";
        destination_agency_id = "AG-1";
        destination_agency_name = "Agency one";
        cases = 30;
        lot_id = "LOT-3";
        assigned_vehicle_id = some "VEH-3";
        status = "PLANNED";
      }
      ∷ [];
  lots =
      record {
        lot_id = "LOT-3";
        code = "B";
        produce_type = "roots";
        hazard_status = "SAFE";
        total_cases = 30;
      }
      ∷ [];
  vehicles =
      record {
        vehicle_id = "VEH-3";
        name = "Truck three";
        max_capacity_cases = 50;
        current_load_cases = 30;
        is_operational = true;
      }
      ∷ [];
  custody_nodes =
      record {
        node_id = "NODE-3";
        node_type = "SITE";
        name = "Depot";
        on_hand_cases = 30;
        acknowledgment_status = "CONFIRMED";
      }
      ∷ [];
  custody_edges =
      record {
        edge_id = "EDGE-3";
        source_node_id = "NODE-3";
        target_node_id = "NODE-3";
        lot_id = "LOT-3";
        case_count = 30;
        is_sub_distribution = false;
      }
      ∷ [];
  logical_tenant_id = "bank";
  operating_day = "2026-07-15";
  authority_scope = "bank@2026-07-15";
}

abbrev current : Option String
current = some "R1"

abbrev saved : Transaction
saved = after (apply_save_plan env command plan current opening)

plan-runs : apply_save_plan env command plan current opening ≡ ok (7, saved)
unfolding apply_save_plan operating_day_authority_id plan_status check_references check_orders
    check_edges has_tenant
plan-runs = refl

apply_save_plan-IsConsistent_example :
    IsConsistent plan
    × (operating_day_authority_id env "bank" "2026-07-15" ≡ ok tenant)
    × (is_none (plan_status base tenant "PLAN-2" "R1") ≡ true)
    × (("ACTIVE" == "ACTIVE") ≡ true → (current ≡ none) ⊎ (current ≡ some "R1"))
apply_save_plan-IsConsistent_example =
    apply_save_plan-IsConsistent env command plan current opening saved 7 plan-runs

abbrev contain : SetIncidentStatusPayload
contain = record {
  incident_id = "INC-1";
  expected_status = "PARTIALLY_CONTAINED";
  new_status = "CONTAINED";
  terminal_state = "CONTAINED";
  unconfirmed_cases = some 0;
}

abbrev moved : Transaction
moved = record opening { db = move_incident command contain base }

contain-runs : apply_status command contain opening ≡ ok (1, moved)
unfolding apply_status parse_status can_transition check_unconfirmed terminal_state_of
contain-runs = refl

apply_status-ok_example :
    (before next : IncidentStatus) × (parse_status "PARTIALLY_CONTAINED" ≡ some before)
    × (parse_status "CONTAINED" ≡ some next)
    × (can_transition "FOOD_SAFETY_RECALL" before next ≡ true)
    × ("CONTAINED" ≡ terminal_state_of next)
    × (claims_all "CONTAINED" ≡ true → contain.unconfirmed_cases ≡ some 0)
    × (count_at tenant "INC-1" "PARTIALLY_CONTAINED" base ≡ 1)
    × (count_at tenant "INC-1" "PARTIALLY_CONTAINED" moved.db ≡ 0)
    × (count_at tenant "INC-1" "CONTAINED" moved.db ≡ count_at tenant "INC-1" "CONTAINED" base + 1)
    × (moved ≡ record opening { db = move_incident command contain base })
unfolding move_incident
apply_status-ok_example = apply_status-ok command contain opening moved 1 contain-runs

abbrev barrier : ActivateMovementBarrierPayload
barrier = record {
  barrier_id = "BAR-1";
  incident_id = "INC-1";
  lot_id = "LOT-1";
  reason = "recall";
  work_item_id = "WORK-9";
}

abbrev barred : Transaction
barred = after (apply_barrier env command barrier opening)

barrier-runs : apply_barrier env command barrier opening ≡ ok (3, barred)
unfolding apply_barrier incident_exists recall_lot
barrier-runs = refl

abbrev allocation : AllocateSafeStockPayload
allocation = record {
  incident_id = "INC-1";
  allocations =
      record { allocation_id = "ALL-1"; agency_id = "AG-1"; lot_id = "LOT-1"; cases = 5 } ∷ [];
  shortfalls = [];
}

apply_allocate-barrier_example : (e : Error) × (apply_allocate command allocation barred ≡ err e)
apply_allocate-barrier_example =
    apply_allocate-barrier env command barrier opening barred 3 barrier-runs command allocation
      barred refl refl refl

abbrev vehicles : List NextDayCandidateVehiclePayload
vehicles =
    record {
      vehicle_id = "VEH-1";
      capacity_cases = 60;
      committed_load_cases = 20;
      candidate_load_cases = 15;
      stops =
          record {
            order_id = "ORD-9";
            agency_id = "AG-1";
            agency_name = "Agency one";
            cases = 15;
            lot_id = "LOT-2";
            vehicle_id = "VEH-1";
            sequence = 1;
            shortfall_id = "SF-1";
            status = "CANDIDATE";
          }
          ∷ [];
    }
    ∷ []

abbrev draft : CreateNextDayDraftPayload
draft = record {
  source_event_id = "EV-1";
  source_operating_day = "2026-07-15";
  event_type = "NEXT_DAY_ROLLOVER";
  operating_date = "2026-07-16";
  plan_id = "PLAN-2026-07-16";
  revision = "D1";
  status = "DRAFT_WITH_CONSTRAINTS";
  coordinator_id = "COORD-2";
  barriers = [];
  shortfalls = record { shortfall_id = "SF-1"; agency_id = "AG-1"; cases = 15 } ∷ [];
  acknowledgment_holds = [];
  candidate_vehicles = vehicles;
  unassigned_demand = [];
}

abbrev drafted : Transaction
drafted = after (apply_next_day env command draft opening)

draft-runs :
    apply_next_day env command draft opening
    ≡ ok (written (apply_next_day env command draft opening), drafted)
unfolding apply_next_day shortfall_is_open check_candidates draw_vehicles draw_stops check_stop
    safe_cases open_cases operational draw plan_status write_draft
draft-runs = refl

apply_next_day-IsStocked_example :
    IsStocked base tenant draft vehicles
    × All (IsLoadable base tenant draft) vehicles
    × All (IsBarred base tenant draft) draft.barriers
apply_next_day-IsStocked_example =
    apply_next_day-IsStocked env command draft opening drafted _ draft-runs

abbrev two : ℕ
two = 2

abbrev evidence : ProcessPartnerEvidencePayload
evidence = record {
  event_type = "PARTNER_CUSTODY_EVIDENCE_RECEIVED";
  source_event_id = "EV-2";
  operating_day = "2026-07-15";
  source_occurred_at = 30;
  source_text = source_text;
  source_sha256 = source_text;
  partner_id = "PARTNER-1";
  callback_provenance = "AUTHENTICATED_PARTNER_CALLBACK";
  proposal = proposal;
}

abbrev confirmed : Result (Verdict × ℕ × Transaction) → Transaction
confirmed (ok (v, n, t)) = t
confirmed (err e) = opening

abbrev proved : Transaction
proved = confirmed (apply_partner_evidence env command evidence "RCT-1" opening)

evidence-runs :
    apply_partner_evidence env command evidence "RCT-1" opening ≡ ok (applied, 2, proved)
unfolding apply_partner_evidence find_authority confirm_custody verify_partner_custody_proposal
    reasons_of mismatches assess assess_quantity assess_time anchored is_in str_nat
evidence-runs = refl

apply_partner_evidence-custody_example :
    (found : Found) × (find_authority env command evidence "RCT-1" base ≡ ok found)
    × (applied ≡ (verify_partner_custody_proposal proposal found.authority).decision)
    × ((row : PartnerEvidenceRow) × IsRecorded env command evidence "RCT-1" applied two row
        × (proved.buffer ≡ insert_partner_evidence (row ∷ []) ∷ []))
    × (applied ≡ denied → (two ≡ 0) × (proved.db ≡ base))
    × (applied ≡ applied
        → (two ≡ 2)
          × IsSupported proposal found.authority
          × IsConfirmed env command evidence base proved.db)
apply_partner_evidence-custody_example =
    apply_partner_evidence-custody env command evidence "RCT-1" opening proved applied two
      evidence-runs
