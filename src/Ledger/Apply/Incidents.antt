-- ===== src/Ledger/Apply/Incidents.antt =====
-- ledger_executor.py, `_apply`: RECORD_ACKNOWLEDGMENT_HOLD, SET_INCIDENT_STATUS and
-- ACTIVATE_MOVEMENT_BARRIER.
pub mod Closing
pub mod Barrier
use full_shelf.Prelude.{
  ℕ, String, Bool, true, false, not, ◌&&◌, ◌||◌, Option, none, some, List, [], ◌∷◌, ◌==◌, nat_eq,
  count_where, update_where, concat,
}
use full_shelf.Prelude.Errors.{Result, ok, err, value_error, ◌>>=◌, ◌>>◌, guard, raise_if}
use full_shelf.Evidence.{PartnerCustodyConfirmationDetails}
use full_shelf.Policy.Models.{
  IncidentStatus, detected, scoping, containment_in_progress, partially_contained, contained,
  closed, resolved,
}
use full_shelf.Policy.Lifecycle.{can_transition, parse_status}
use full_shelf.Ledger.Json.{num, text, obj, end, field}
use full_shelf.Ledger.Rows.{IncidentRow, InboundEventRow, LotRow, MovementBarrierRow, WorkItemRow}
use full_shelf.Ledger.Database.{
  Database, insert_inbound_events, insert_movement_barriers, insert_work_items, upsert_incidents,
}
use full_shelf.Ledger.Commit.{Transaction, buffered}
use full_shelf.Ledger.Payloads.{
  RecordAcknowledgmentHoldPayload, SetIncidentStatusPayload, ActivateMovementBarrierPayload,
}
use full_shelf.Ledger.Commands.{LedgerCommand, Environment}
use full_shelf.Ledger.Digests.{short_digest}
use full_shelf.Ledger.Queries.{incident_exists}

abbrev pub is_lot : String → String → LotRow → Bool
is_lot tenant_id lot_id l = l.tenant_id == tenant_id && l.lot_id == lot_id

-- `UPDATE Lots SET hazard_status = 'RECALLED' WHERE …`
unfoldable pub recall_lot : String → String → Database → Database
recall_lot tenant_id lot_id db = record db {
  lots =
      update_where (is_lot tenant_id lot_id)
        (λ (l : LotRow). record l { hazard_status = "RECALLED" }) db.lots;
}

module _ (x : Environment) where
  hold_row : LedgerCommand → RecordAcknowledgmentHoldPayload → IncidentRow
  hold_row c p = record {
    tenant_id = c.tenant_id;
    incident_id = p.hold_incident_id;
    parent_coordinator_id = p.coordinator_id;
    incident_type = "DEADLINE_HOLD";
    status = "ACKNOWLEDGMENT_HOLD_ACTIVE";
    affected_lot_id = p.lot_id;
    details = x.dumps_compact (
        obj (
          field "delivery_audience" (text p.delivery_audience) (
            field "delivery_email" (text p.delivery_email) (
              field "delivery_subject" (text p.delivery_subject) (
                field "parent_incident_id" (text p.incident_id) (
                  field "site_id" (text p.site_id) (
                    field "task_name" (text p.task_name)
                      (field "unconfirmed_cases" (num p.unconfirmed_cases) end))))))));
    terminal_state = "PARTIALLY_CONTAINED";
  }

  deadline_event : LedgerCommand → RecordAcknowledgmentHoldPayload → InboundEventRow
  deadline_event c p = record {
    tenant_id = c.tenant_id;
    source_event_id = p.task_name;
    event_type = "SITE01_ACKNOWLEDGMENT_DEADLINE";
    status = "ACCEPTED";
    payload = x.dumps_compact (
        obj (
          field "delivery_audience" (text p.delivery_audience) (
            field "delivery_email" (text p.delivery_email) (
              field "delivery_subject" (text p.delivery_subject) (
                field "incident_id" (text p.incident_id)
                  (field "site_id" (text p.site_id) end))))));
  }

  custody_details : RecordAcknowledgmentHoldPayload → PartnerCustodyConfirmationDetails
  custody_details p = record {
    schema_version = "partner-custody-confirmation.v1";
    partner_id = p.partner_id;
    site_id = p.site_id;
    custody_node_id = p.custody_node_id;
    lot_id = p.lot_id;
    expected_cases = p.unconfirmed_cases;
    expected_acknowledgment_status = "UNCONFIRMED";
    requested_acknowledgment_status = "CONFIRMED";
    hold_incident_id = p.hold_incident_id;
    operating_day = p.operating_day;
    source_task_name = p.task_name;
  }

  work_item_id : LedgerCommand → RecordAcknowledgmentHoldPayload → String
  work_item_id c p = concat (
      "WORK-PCF-"
      ∷ short_digest x (
          concat (
            c.tenant_id ∷ "\0" ∷ p.incident_id ∷ "\0" ∷ p.partner_id ∷ "\0" ∷ p.site_id ∷ "\0"
            ∷ p.lot_id ∷ []))
      ∷ [])

  custody_item : LedgerCommand → RecordAcknowledgmentHoldPayload → WorkItemRow
  unfolding custody_details work_item_id
  custody_item c p = record {
    tenant_id = c.tenant_id;
    work_item_id = work_item_id c p;
    incident_id = p.incident_id;
    work_type = "PARTNER_CUSTODY_CONFIRMATION";
    status = "OPEN";
    details = x.details_dump (custody_details p);
  }

  unfoldable pub apply_hold :
      LedgerCommand → RecordAcknowledgmentHoldPayload → Transaction → Result (ℕ × Transaction)
  unfolding hold_row deadline_event custody_item
  apply_hold c p t = do
    guard (p.incident_id == c.incident_id) (value_error "INCIDENT_SCOPE_MISMATCH")
    ok (
      3,
      buffered (insert_work_items (custody_item c p ∷ [])) (
          buffered (insert_inbound_events (deadline_event c p ∷ []))
            (buffered (upsert_incidents (hold_row c p ∷ [])) t)),
    )

  recall_item : LedgerCommand → ActivateMovementBarrierPayload → WorkItemRow
  recall_item c p = record {
    tenant_id = c.tenant_id;
    work_item_id = p.work_item_id;
    incident_id = p.incident_id;
    work_type = "RECALL_SCOPE_AND_INVALIDATION";
    status = "REQUESTED";
    details = x.dumps_compact (obj (field "lot_id" (text p.lot_id) end));
  }

  barrier_row : LedgerCommand → ActivateMovementBarrierPayload → MovementBarrierRow
  barrier_row c p = record {
    tenant_id = c.tenant_id;
    barrier_id = p.barrier_id;
    incident_id = p.incident_id;
    lot_id = p.lot_id;
    status = "ACTIVE";
    reason = p.reason;
  }

  unfoldable pub apply_barrier :
      LedgerCommand → ActivateMovementBarrierPayload → Transaction → Result (ℕ × Transaction)
  unfolding recall_item barrier_row
  apply_barrier c p t = do
    guard (p.incident_id == c.incident_id) (value_error "INCIDENT_SCOPE_MISMATCH")
    guard (incident_exists t.db c.tenant_id p.incident_id) (value_error "INCIDENT_NOT_FOUND")
    let t1 = buffered (insert_movement_barriers (barrier_row c p ∷ [])) t
    guard (nat_eq (count_where (is_lot c.tenant_id p.lot_id) t.db.lots) 1)
        (value_error "LOT_NOT_FOUND")
    let t2 = record t1 { db = recall_lot c.tenant_id p.lot_id t.db }
    ok (3, buffered (insert_work_items (recall_item c p ∷ [])) t2)

abbrev pub known_status : Option IncidentStatus → Result IncidentStatus
known_status none = err (value_error "UNKNOWN_INCIDENT_STATUS")
known_status (some s) = ok s

-- `payload.unconfirmed_cases is None or payload.unconfirmed_cases <= 0`
abbrev pub lacks_unconfirmed : Option ℕ → Bool
lacks_unconfirmed none = true
lacks_unconfirmed (some n) = nat_eq n 0

-- `payload.unconfirmed_cases != 0`, which holds of `None` too
abbrev pub not_all_confirmed : Option ℕ → Bool
not_all_confirmed none = true
not_all_confirmed (some n) = not (nat_eq n 0)

-- The two rules about the unconfirmed cases.
unfoldable pub check_unconfirmed : IncidentStatus → Option ℕ → Result (Unit {0})
check_unconfirmed partially_contained cases =
    raise_if (lacks_unconfirmed cases)
      (value_error "PARTIAL_CONTAINMENT_REQUIRES_UNCONFIRMED_CASES")
check_unconfirmed contained cases =
    raise_if (not_all_confirmed cases) (value_error "UNCONFIRMED_CASES_BLOCK_CONTAINMENT")
check_unconfirmed closed cases =
    raise_if (not_all_confirmed cases) (value_error "UNCONFIRMED_CASES_BLOCK_CONTAINMENT")
check_unconfirmed _ cases = ok tt

-- `expected_terminal_state`. ACTIVE and RESOLVED are no keys of the dictionary, but no permitted
-- transition of a recall leads to them.
unfoldable pub terminal_state_of : IncidentStatus → String
terminal_state_of partially_contained = "PARTIALLY_CONTAINED"
terminal_state_of contained = "CONTAINED"
terminal_state_of closed = "CLOSED"
terminal_state_of _ = "NONE"

abbrev pub is_incident_at : String → String → String → IncidentRow → Bool
is_incident_at tenant_id incident_id status r =
    r.tenant_id == tenant_id && (r.incident_id == incident_id && r.status == status)

-- `UPDATE Incidents SET status = …, terminal_state = … WHERE … AND status = @expected_status`
unfoldable pub move_incident : LedgerCommand → SetIncidentStatusPayload → Database → Database
move_incident c p db = record db {
  incidents =
      update_where (is_incident_at c.tenant_id p.incident_id p.expected_status)
        (λ (r : IncidentRow). record r { status = p.new_status; terminal_state = p.terminal_state })
        db.incidents;
}

unfoldable pub apply_status :
    LedgerCommand → SetIncidentStatusPayload → Transaction → Result (ℕ × Transaction)
apply_status c p t = do
  guard (p.incident_id == c.incident_id) (value_error "INCIDENT_SCOPE_MISMATCH")
  expected_status ← known_status (parse_status p.expected_status)
  new_status ← known_status (parse_status p.new_status)
  guard (can_transition "FOOD_SAFETY_RECALL" expected_status new_status)
      (value_error "INCIDENT_LIFECYCLE_TRANSITION_DENIED")
  check_unconfirmed new_status p.unconfirmed_cases
  guard (p.terminal_state == terminal_state_of new_status)
      (value_error "TERMINAL_STATE_DOES_NOT_MATCH_LIFECYCLE_STATUS")
  guard
      (nat_eq
        (count_where (is_incident_at c.tenant_id p.incident_id p.expected_status) t.db.incidents) 1)
      (value_error "INCIDENT_STATUS_PRECONDITION_FAILED")
  ok (1, record t { db = move_incident c p t.db })
