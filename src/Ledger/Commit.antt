-- ===== src/Ledger/Commit.antt =====
-- The commit of a transaction: the buffered mutations, in order, against the keys and parents that
-- infra/spanner/schema.sql declares.
use full_shelf.Prelude.{Bool, true, ◌&&◌, ◌||◌, List, [], ◌∷◌, ◌++◌, ◌==◌}
use full_shelf.Prelude.Errors.{Result, ok, ◌>>=◌}
use full_shelf.Ledger.Rows.{
  TenantRow, PlanRevisionRow, OrderRow, PlanConstraintRow, CoordinatorRow, IncidentRow, ReceiptRow,
}
use full_shelf.Ledger.Database.{
  Database, Mutation, insert_tenants, insert_plan_revisions, insert_lots, insert_vehicles,
  insert_orders, insert_custody_nodes, insert_custody_edges, insert_plan_constraints,
  insert_approvals, insert_inbound_events, insert_incidents, insert_movement_barriers,
  insert_recovery_allocations, insert_recovery_shortfalls, insert_work_items,
  insert_partner_evidence, insert_receipts, upsert_coordinators, upsert_incidents, insert_rows,
  upsert_rows, has_tenant, has_plan,
}

-- PRIMARY KEY (tenant_id, …)
abbrev pub plan_key : PlanRevisionRow → PlanRevisionRow → Bool
plan_key r x = r.tenant_id == x.tenant_id && (r.plan_id == x.plan_id && r.revision == x.revision)

abbrev pub order_key : OrderRow → OrderRow → Bool
order_key r x =
    r.tenant_id == x.tenant_id
    && (r.plan_id == x.plan_id && (r.revision == x.revision && r.order_id == x.order_id))

abbrev pub constraint_key : PlanConstraintRow → PlanConstraintRow → Bool
constraint_key r x =
    r.tenant_id == x.tenant_id
    && (r.plan_id == x.plan_id
        && (r.revision == x.revision
            && (r.constraint_type == x.constraint_type && r.subject_id == x.subject_id)))

abbrev pub incident_key : IncidentRow → IncidentRow → Bool
incident_key r x = r.tenant_id == x.tenant_id && r.incident_id == x.incident_id

abbrev pub coordinator_key : CoordinatorRow → CoordinatorRow → Bool
coordinator_key r x = r.tenant_id == x.tenant_id && r.coordinator_id == x.coordinator_id

-- The primary key, and the unique index `ReceiptsByIdempotencyKey`.
abbrev pub receipt_key : ReceiptRow → ReceiptRow → Bool
receipt_key r x =
    r.tenant_id == x.tenant_id
    && (r.receipt_id == x.receipt_id || r.idempotency_key == x.idempotency_key)

unfoldable pub apply_mutation : Mutation → Database → Result Database
apply_mutation (insert_tenants rows) db = do
  t ←
      insert_rows "Tenants" (λ (r x : TenantRow). r.tenant_id == x.tenant_id) (λ r. true) rows
        db.tenants
  ok (record db { tenants = t })
apply_mutation (insert_plan_revisions rows) db = do
  t ← insert_rows "PlanRevisions" plan_key (λ r. has_tenant db r.tenant_id) rows db.plan_revisions
  ok (record db { plan_revisions = t })
apply_mutation (insert_lots rows) db = do
  t ←
      insert_rows "Lots" (λ r x. r.tenant_id == x.tenant_id && r.lot_id == x.lot_id)
        (λ r. has_tenant db r.tenant_id) rows db.lots
  ok (record db { lots = t })
apply_mutation (insert_vehicles rows) db = do
  t ←
      insert_rows "Vehicles" (λ r x. r.tenant_id == x.tenant_id && r.vehicle_id == x.vehicle_id)
        (λ r. has_tenant db r.tenant_id) rows db.vehicles
  ok (record db { vehicles = t })
apply_mutation (insert_orders rows) db = do
  t ←
      insert_rows "Orders" order_key (λ r. has_plan db r.tenant_id r.plan_id r.revision) rows
        db.orders
  ok (record db { orders = t })
apply_mutation (insert_custody_nodes rows) db = do
  t ←
      insert_rows "CustodyNodes" (λ r x. r.tenant_id == x.tenant_id && r.node_id == x.node_id)
        (λ r. has_tenant db r.tenant_id) rows db.custody_nodes
  ok (record db { custody_nodes = t })
apply_mutation (insert_custody_edges rows) db = do
  t ←
      insert_rows "CustodyEdges" (λ r x. r.tenant_id == x.tenant_id && r.edge_id == x.edge_id)
        (λ r. has_tenant db r.tenant_id) rows db.custody_edges
  ok (record db { custody_edges = t })
apply_mutation (insert_plan_constraints rows) db = do
  t ←
      insert_rows "PlanConstraints" constraint_key
        (λ r. has_plan db r.tenant_id r.plan_id r.revision) rows db.plan_constraints
  ok (record db { plan_constraints = t })
apply_mutation (insert_approvals rows) db = do
  t ←
      insert_rows "Approvals" (λ r x. r.tenant_id == x.tenant_id && r.approval_id == x.approval_id)
        (λ r. has_tenant db r.tenant_id) rows db.approvals
  ok (record db { approvals = t })
apply_mutation (insert_inbound_events rows) db = do
  t ←
      insert_rows "InboundEvents"
        (λ r x. r.tenant_id == x.tenant_id && r.source_event_id == x.source_event_id)
        (λ r. has_tenant db r.tenant_id) rows db.inbound_events
  ok (record db { inbound_events = t })
apply_mutation (insert_incidents rows) db = do
  t ← insert_rows "Incidents" incident_key (λ r. has_tenant db r.tenant_id) rows db.incidents
  ok (record db { incidents = t })
apply_mutation (insert_movement_barriers rows) db = do
  t ←
      insert_rows "MovementBarriers"
        (λ r x. r.tenant_id == x.tenant_id && r.barrier_id == x.barrier_id)
        (λ r. has_tenant db r.tenant_id) rows db.movement_barriers
  ok (record db { movement_barriers = t })
apply_mutation (insert_recovery_allocations rows) db = do
  t ←
      insert_rows "RecoveryAllocations"
        (λ r x. r.tenant_id == x.tenant_id && r.allocation_id == x.allocation_id)
        (λ r. has_tenant db r.tenant_id) rows db.recovery_allocations
  ok (record db { recovery_allocations = t })
apply_mutation (insert_recovery_shortfalls rows) db = do
  t ←
      insert_rows "RecoveryShortfalls"
        (λ r x. r.tenant_id == x.tenant_id && r.shortfall_id == x.shortfall_id)
        (λ r. has_tenant db r.tenant_id) rows db.recovery_shortfalls
  ok (record db { recovery_shortfalls = t })
apply_mutation (insert_work_items rows) db = do
  t ←
      insert_rows "WorkItems"
        (λ r x. r.tenant_id == x.tenant_id && r.work_item_id == x.work_item_id)
        (λ r. has_tenant db r.tenant_id) rows db.work_items
  ok (record db { work_items = t })
apply_mutation (insert_partner_evidence rows) db = do
  t ←
      insert_rows "PartnerEvidenceEvents"
        (λ r x. r.tenant_id == x.tenant_id && r.source_event_id == x.source_event_id)
        (λ r. has_tenant db r.tenant_id) rows db.partner_evidence_events
  ok (record db { partner_evidence_events = t })
apply_mutation (insert_receipts rows) db = do
  t ← insert_rows "Receipts" receipt_key (λ r. has_tenant db r.tenant_id) rows db.receipts
  ok (record db { receipts = t })
apply_mutation (upsert_coordinators rows) db = do
  t ←
      upsert_rows "Coordinators" coordinator_key (λ r. has_tenant db r.tenant_id) rows
        db.coordinators
  ok (record db { coordinators = t })
apply_mutation (upsert_incidents rows) db = do
  t ← upsert_rows "Incidents" incident_key (λ r. has_tenant db r.tenant_id) rows db.incidents
  ok (record db { incidents = t })

-- The state of a running transaction: what its reads see, and the mutations it has buffered.
pub record Transaction : Type 0 where
  pub db : Database
  pub buffer : List Mutation

-- `transaction.insert(…)`
abbrev pub buffered : Mutation → Transaction → Transaction
buffered m t = record t { buffer = t.buffer ++ m ∷ [] }

unfoldable pub apply_all : List Mutation → Database → Result Database
apply_all [] db = ok db
apply_all (m ∷ ms) db = apply_mutation m db >>= λ db'. apply_all ms db'

unfoldable pub commit : Transaction → Result Database
commit t = apply_all t.buffer t.db
