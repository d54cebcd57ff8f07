-- ===== src/Ledger/Apply/Recall.antt =====
-- ledger_executor.py, `_apply`: PERSIST_COORDINATOR and OPEN_RECALL_INCIDENT.
use full_shelf.Prelude.{
  ℕ, String, Bool, ◌&&◌, Option, none, some, List, [], ◌∷◌, ◌++◌, ◌==◌, nat_eq, contains, option_eq,
  first, select, count_where, update_where, if◌then◌else◌,
}
use full_shelf.Prelude.Errors.{Result, ok, err, value_error, ◌>>=◌, ◌>>◌, guard, raise_if}
use full_shelf.Ledger.Json.{Json, Fields, text, arr, obj, end, field, texts, as_texts}
use full_shelf.Ledger.Rows.{CoordinatorRow, IncidentRow, InboundEventRow}
use full_shelf.Ledger.Database.{
  Database, insert_incidents, insert_inbound_events, upsert_coordinators,
}
use full_shelf.Ledger.Commit.{Transaction, buffered}
use full_shelf.Ledger.Payloads.{PersistCoordinatorPayload, OpenRecallIncidentPayload}
use full_shelf.Ledger.Commands.{LedgerCommand, Environment}
use full_shelf.Ledger.Queries.{incident_exists}

abbrev pub is_coordinator : String → String → CoordinatorRow → Bool
is_coordinator tenant_id coordinator_id r =
    r.tenant_id == tenant_id && r.coordinator_id == coordinator_id

-- `json.loads(row[0] or "[]")`, and the tests on what it returns.
unfoldable pub loaded_children : Option Json → Result (List String)
loaded_children none = err (value_error "COORDINATOR_CHILD_INCIDENTS_INVALID")
loaded_children (some j) = elim (as_texts j) [
  | none ↦ err (value_error "COORDINATOR_CHILD_INCIDENTS_INVALID")
  | some children ↦ ok children
]

abbrev pub find_coordinator : Option CoordinatorRow → Result CoordinatorRow
find_coordinator none = err (value_error "COORDINATOR_NOT_FOUND")
find_coordinator (some r) = ok r

-- `{**details, key: value}`: a key that is there keeps its place.
set_field : String → Json → Fields → Fields
set_field k v end = field k v end
set_field k v (field j w rest) = if j == k then field k v rest else field j w (set_field k v rest)

module _ (x : Environment) where
  unfoldable pub apply_coordinator :
      LedgerCommand → PersistCoordinatorPayload → Transaction → Result (ℕ × Transaction)
  apply_coordinator c p t = do
    guard (option_eq (some p.active_plan_revision) c.expected_plan_revision)
        (value_error "COORDINATOR_PLAN_REVISION_MISMATCH")
    let row : CoordinatorRow = record {
      tenant_id = c.tenant_id;
      coordinator_id = p.coordinator_id;
      state = p.state;
      checkpoint = p.checkpoint;
      active_plan_revision = p.active_plan_revision;
      child_incidents = x.dumps_compact (arr (texts p.child_incident_ids));
    }
    ok (1, buffered (upsert_coordinators (row ∷ [])) t)

  recall_row : LedgerCommand → OpenRecallIncidentPayload → IncidentRow
  unfolding set_field
  recall_row c p = record {
    tenant_id = c.tenant_id;
    incident_id = p.incident_id;
    parent_coordinator_id = p.coordinator_id;
    incident_type = "FOOD_SAFETY_RECALL";
    status = "DETECTED";
    affected_lot_id = p.lot_id;
    details = x.dumps_compact (
        obj (set_field "model_armor_correlation_id" (text p.model_armor_correlation_id) p.details));
    terminal_state = "NONE";
  }

  notice_event : LedgerCommand → OpenRecallIncidentPayload → InboundEventRow
  notice_event c p = record {
    tenant_id = c.tenant_id;
    source_event_id = p.source_event_id;
    event_type = "RECALL_NOTICE_RECEIVED";
    status = "ACCEPTED";
    payload = x.dumps (
        obj (
          field "incident_id" (text p.incident_id) (
            field "lot_id" (text p.lot_id)
              (field "source_publish_time" (text p.source_publish_time) end))));
  }

  -- `UPDATE Coordinators SET state = …, child_incidents = … WHERE …`
  wake_coordinator : LedgerCommand → OpenRecallIncidentPayload → List String → Database → Database
  wake_coordinator c p children db = record db {
    coordinators =
        update_where (is_coordinator c.tenant_id p.coordinator_id)
          (λ (r : CoordinatorRow). record r {
            state = "RECALL_WOKEN_DETECTED";
            child_incidents = x.dumps_compact (arr (texts children));
          })
          db.coordinators;
  }

  unfoldable pub apply_open_recall :
      LedgerCommand → OpenRecallIncidentPayload → Transaction → Result (ℕ × Transaction)
  unfolding recall_row notice_event wake_coordinator
  apply_open_recall c p t = do
    guard (p.incident_id == c.incident_id) (value_error "INCIDENT_SCOPE_MISMATCH")
    guard (p.model_armor_correlation_id == c.trace_id)
        (value_error "MODEL_ARMOR_CORRELATION_MISMATCH")
    raise_if (incident_exists t.db c.tenant_id p.incident_id)
        (value_error "INCIDENT_ALREADY_EXISTS_WITH_DIFFERENT_IDEMPOTENCY_KEY")
    let is_ours = is_coordinator c.tenant_id p.coordinator_id
    coordinator ← find_coordinator (first (select is_ours t.db.coordinators))
    children ←
        loaded_children (
          x.loads (if coordinator.child_incidents == "" then "[]" else coordinator.child_incidents))
    let children' =
        if contains p.incident_id children then children else children ++ p.incident_id ∷ []
    guard (nat_eq (count_where is_ours t.db.coordinators) 1)
        (value_error "COORDINATOR_UPDATE_PRECONDITION_FAILED")
    let t' =
        buffered (insert_inbound_events (notice_event c p ∷ []))
          (buffered (insert_incidents (recall_row c p ∷ [])) t)
    ok (3, record t' { db = wake_coordinator c p children' t.db })
