-- ===== src/Tests/Plans.antt =====
-- What the planners derive: a partial recovery, a schedule for tomorrow, and a repair.
use full_shelf.Prelude.{
  String, true, ◌≡◌, ◌↔◌, ◌≤◌, ◌<◌, ◌+◌, ◌==◌, refl, Option, none, some, List, [], ◌∷◌, sum_by,
  if◌then◌else◌,
}
use full_shelf.Prelude.Errors.{ok, err, validation_error}
use full_shelf.Prelude.Sorting.{sort_by}
use full_shelf.Ledger.Rows.{RecoveryShortfallRow, VehicleRow}
use full_shelf.Ledger.Payloads.{
  NextDayCandidateVehiclePayload, NextDayUnassignedDemandPayload, CreateNextDayDraftPayload,
  PersistRepairProposalPayload,
}
use full_shelf.Ledger.Validators.{validate_next_day, validate_proposal}
use full_shelf.Planning.Recovery.{
  SafeLot, AffectedOrder, DerivedAllocation, DerivedShortfall, derive_safe_recovery, recover_orders,
}
use full_shelf.Planning.Recovery.Conservation.{
  allocated, allocated_from, short, lot_stock, stock_of, demanded,
}
use full_shelf.Planning.Recovery.Decision.{derive_safe_recovery-ok, derive_safe_recovery_iff}
use full_shelf.Planning.Candidates.{candidate_assignments}
use full_shelf.Planning.Candidates.Totals.{total_planned, candidate_assignments-conserves}
use full_shelf.Planning.Candidates.Accepted.{candidate_assignments-validate_next_day}
use full_shelf.Planning.Candidates.Stock.{taken_at, candidate_assignments-stock}
use full_shelf.Planning.Repair.{derive_repair_proposal, repair_payload, proposed_revision}
use full_shelf.Planning.Repair.Feasible.{derive_repair_proposal-validates}
use full_shelf.Tests.Fixtures.{env, tenant, base, order_1, order_2, lot_2}

abbrev safe_lots : List SafeLot
safe_lots = record { lot_id = "LOT-2"; cases = 25 } ∷ record { lot_id = "LOT-3"; cases = 15 } ∷ []

abbrev affected : List AffectedOrder
affected =
    record { order_id = "ORD-1"; agency_id = "AG-1"; cases = 18 }
    ∷ record { order_id = "ORD-2"; agency_id = "AG-2"; cases = 22 }
    ∷ record { order_id = "ORD-3"; agency_id = "AG-3"; cases = 20 }
    ∷ []

abbrev recovered : List DerivedAllocation × List DerivedShortfall
recovered = (
  (recover_orders env "INC-1" affected safe_lots).allocations,
  (recover_orders env "INC-1" affected safe_lots).shortfalls,
)

derive_safe_recovery-ok_example :
    (allocated recovered.0 ≡ lot_stock safe_lots)
    × (allocated recovered.0 + short recovered.1 ≡ demanded affected)
    × ((k : String) → allocated_from k recovered.0 ≡ stock_of k safe_lots)
unfolding derive_safe_recovery
derive_safe_recovery-ok_example =
    derive_safe_recovery-ok env "INC-1" safe_lots affected recovered.0 recovered.1 refl

derive_safe_recovery_iff_example :
    ((r : List DerivedAllocation × List DerivedShortfall) × (derive_safe_recovery env "INC-1"
          safe_lots affected
        ≡ ok r))
    ↔ ((0 < lot_stock safe_lots) × (lot_stock safe_lots < demanded affected))
derive_safe_recovery_iff_example = derive_safe_recovery_iff env "INC-1" safe_lots affected

abbrev shortfalls : List RecoveryShortfallRow
shortfalls =
    record {
      tenant_id = tenant;
      shortfall_id = "SF-1";
      incident_id = "INC-1";
      agency_id = "AG-1";
      cases = 15;
      status = "OPEN";
    }
    ∷ record {
      tenant_id = tenant;
      shortfall_id = "SF-2";
      incident_id = "INC-1";
      agency_id = "AG-2";
      cases = 30;
      status = "OPEN";
    }
    ∷ []

abbrev fleet : List VehicleRow
fleet =
    record {
      tenant_id = tenant;
      vehicle_id = "VEH-1";
      name = "Truck one";
      max_capacity_cases = 60;
      current_load_cases = 20;
      is_operational = true;
    }
    ∷ []

abbrev names : String → Option String
names agency_id = if agency_id == "AG-1" then some "Agency one" else none

abbrev schedule : List NextDayCandidateVehiclePayload × List NextDayUnassignedDemandPayload
schedule = candidate_assignments "PLAN-2" names shortfalls (lot_2 ∷ []) fleet

abbrev draft : CreateNextDayDraftPayload
draft = record {
  source_event_id = "EV-1";
  source_operating_day = "2026-07-15";
  event_type = "PLAN_NEXT_DAY_REQUESTED";
  operating_date = "2026-07-16";
  plan_id = "PLAN-2";
  revision = "rev01";
  status = "DRAFT_WITH_CONSTRAINTS";
  coordinator_id = "COORD-2";
  barriers = [];
  shortfalls = [];
  acknowledgment_holds = [];
  candidate_vehicles = [];
  unassigned_demand = [];
}

candidate_assignments-validate_next_day_example :
    validate_next_day
      (record draft { candidate_vehicles = schedule.0; unassigned_demand = schedule.1 })
    ≡ ok tt
candidate_assignments-validate_next_day_example =
    candidate_assignments-validate_next_day "PLAN-2" names shortfalls (lot_2 ∷ []) fleet draft refl

candidate_assignments-stock_example : total_planned (taken_at "LOT-2") schedule.0 ≤ 40
candidate_assignments-stock_example =
    candidate_assignments-stock "PLAN-2" names shortfalls (lot_2 ∷ []) fleet "LOT-2" refl

candidate_assignments-conserves_example :
    (total_planned (λ s. if s.shortfall_id == "SF-2" then s.cases else 0) schedule.0
        + sum_by (λ u. if u.shortfall_id == "SF-2" then u.cases else 0) schedule.1
      ≡ 30)
    × (total_planned (λ s. if s.shortfall_id == "SF-2" then 1 else 0) schedule.0
          + sum_by (λ u. if u.shortfall_id == "SF-2" then 1 else 0) schedule.1
        ≡ 1)
candidate_assignments-conserves_example =
    candidate_assignments-conserves "PLAN-2" names shortfalls (lot_2 ∷ []) fleet "SF-2"

abbrev proposal : PersistRepairProposalPayload
proposal = repair_payload env tenant "PLAN-1" "VEH-2" "EV-1" (record {
  source_revision = "R1";
  absorbing = record {
    tenant_id = tenant;
    vehicle_id = "VEH-1";
    name = "Truck one";
    max_capacity_cases = 60;
    current_load_cases = 20;
    is_operational = true;
  };
  reroute = order_1;
  pickup = order_2;
})

derive_repair_proposal-validates_example : validate_proposal proposal ≡ (
    if "R1" == proposed_revision
    then err (validation_error "PROPOSAL_MUST_ADVANCE_A_REVISION")
    else ok tt)
unfolding derive_repair_proposal sort_by
derive_repair_proposal-validates_example =
    derive_repair_proposal-validates env (λ c. ok tt) base tenant "1" "VEH-2" "EV-1" proposal refl
