-- ===== src/Ledger/NextDay/Draft.antt =====
-- ledger_executor.py, `_apply`, CREATE_NEXT_DAY_DRAFT: the rows, and the branch as a whole.
use full_shelf.Prelude.{
  ℕ, ◌+◌, String, Option, none, some, List, [], ◌∷◌, ◌++◌, map, ◌==◌, all, length, if◌then◌else◌,
}
use full_shelf.Prelude.Errors.{Result, ok, err, value_error, ◌>>◌, guard}
use full_shelf.Ledger.Json.{text, obj, end, field}
use full_shelf.Ledger.Rows.{CoordinatorRow, InboundEventRow, OrderRow, PlanRevisionRow}
use full_shelf.Ledger.Database.{
  Mutation, insert_plan_revisions, insert_plan_constraints, insert_inbound_events, insert_orders,
  upsert_coordinators,
}
use full_shelf.Ledger.Commit.{Transaction, buffered}
use full_shelf.Ledger.Payloads.{
  NextDayCandidateStopPayload, NextDayCandidateVehiclePayload, CreateNextDayDraftPayload,
}
use full_shelf.Ledger.Commands.{LedgerCommand, Environment}
use full_shelf.Ledger.Queries.{plan_status}
use full_shelf.Ledger.NextDay.Constraints.{expected_constraints, unassigned_constraints, row_of}
use full_shelf.Ledger.NextDay.Checks.{
  barrier_is_active, shortfall_is_open, hold_is_open, check_candidates_of,
}

module _ (c : LedgerCommand) (p : CreateNextDayDraftPayload) where
  abbrev pub draft_row : PlanRevisionRow
  draft_row = record {
    tenant_id = c.tenant_id;
    plan_id = p.plan_id;
    revision = p.revision;
    status = p.status;
  }

  candidate_order : NextDayCandidateStopPayload → OrderRow
  candidate_order s = record {
    tenant_id = c.tenant_id;
    plan_id = p.plan_id;
    revision = p.revision;
    order_id = s.order_id;
    destination_agency_id = s.agency_id;
    destination_agency_name = s.agency_name;
    cases = s.cases;
    lot_id = s.lot_id;
    assigned_vehicle_id = some s.vehicle_id;
    status = s.status;
  }

  -- `for vehicle in candidate_vehicles for stop in vehicle.stops`
  unfoldable pub candidate_rows : List NextDayCandidateVehiclePayload → List OrderRow
  unfolding candidate_order
  candidate_rows [] = []
  candidate_rows (v ∷ vehicles) = map candidate_order v.stops ++ candidate_rows vehicles

  coordinator_row : CoordinatorRow
  coordinator_row = record {
    tenant_id = c.tenant_id;
    coordinator_id = p.coordinator_id;
    state = "DRAFT_WITH_CONSTRAINTS";
    checkpoint = "HUMAN_APPROVAL_REQUIRED";
    active_plan_revision = p.revision;
    child_incidents = "[]";
  }

-- `if rows: transaction.insert(…)`
abbrev insert_if {ℓ} : {A : Type ℓ} → (List A → Mutation) → List A → Transaction → Transaction
insert_if m [] t = t
insert_if m (r ∷ rows) t = buffered (m (r ∷ rows)) t

module _ (x : Environment) where
  draft_event : LedgerCommand → CreateNextDayDraftPayload → InboundEventRow
  draft_event c p = record {
    tenant_id = c.tenant_id;
    source_event_id = p.source_event_id;
    event_type = p.event_type;
    status = "ACCEPTED";
    payload = x.dumps (
        obj (
          field "operating_date" (text p.operating_date)
            (field "source_operating_day" (text p.source_operating_day) end)));
  }

  unfoldable pub write_draft :
      LedgerCommand → CreateNextDayDraftPayload → Transaction → ℕ × Transaction
  unfolding draft_event coordinator_row
  write_draft c p t =
      let constraints = map (row_of c p) (expected_constraints x p) in
      let orders = candidate_rows c p p.candidate_vehicles in
      let unassigned = map (row_of c p) (unassigned_constraints x p) in
      (
        3 + length constraints + length orders + length unassigned,
        insert_if insert_plan_constraints unassigned (
            insert_if insert_orders orders (
              buffered (upsert_coordinators (coordinator_row c p ∷ [])) (
                buffered (insert_inbound_events (draft_event c p ∷ [])) (
                  buffered (insert_plan_constraints constraints)
                    (buffered (insert_plan_revisions (draft_row c p ∷ [])) t))))),
      )

  -- Writes the draft unless it is there already, with the status that it is to have.
  abbrev pub write_unless :
      LedgerCommand
      → CreateNextDayDraftPayload
      → Transaction
      → Option String
      → Result (ℕ × Transaction)
  write_unless c p t none = ok (write_draft c p t)
  write_unless c p t (some status) =
      if status == p.status
      then ok (0, t)
      else err (value_error "NEXT_DAY_PLAN_ALREADY_EXISTS_WITH_DIFFERENT_STATUS")

  unfoldable pub apply_next_day :
      LedgerCommand → CreateNextDayDraftPayload → Transaction → Result (ℕ × Transaction)
  apply_next_day c p t = do
    guard (all (barrier_is_active t.db c.tenant_id) p.barriers)
        (value_error "ACTIVE_MOVEMENT_BARRIER_REQUIRED")
    guard (all (shortfall_is_open t.db c.tenant_id) p.shortfalls)
        (value_error "OPEN_RECOVERY_SHORTFALL_REQUIRED")
    guard (all (hold_is_open x t.db c.tenant_id) p.acknowledgment_holds)
        (value_error "OPEN_ACKNOWLEDGMENT_HOLD_REQUIRED")
    check_candidates_of t.db c.tenant_id p p.candidate_vehicles
    write_unless c p t (plan_status t.db c.tenant_id p.plan_id p.revision)
