-- ===== src/Ledger/Database.antt =====
-- The database and one read-write transaction on it. As in Spanner, what `execute_update` changes
-- is seen at once, while `insert` is buffered and applied when the transaction commits, in order;
-- a duplicate key or a missing parent row (schema.sql: PRIMARY KEY, UNIQUE INDEX, INTERLEAVE IN
-- PARENT) fails the whole commit. Each table lists its newest row first, which is the order that
-- `ORDER BY created_at DESC` asks for.
use full_shelf.Prelude.{String, Bool, ◌&&◌, List, [], ◌∷◌, ◌==◌, any, if◌then◌else◌}
use full_shelf.Prelude.Errors.{Result, ok, already_exists, parent_missing, ◌>>◌, guard, raise_if}
use full_shelf.Ledger.Rows.{
  TenantRow, PlanRevisionRow, LotRow, VehicleRow, OrderRow, CustodyNodeRow, CustodyEdgeRow,
  PlanConstraintRow, ApprovalRow, CoordinatorRow, IncidentRow, InboundEventRow, MovementBarrierRow,
  RecoveryAllocationRow, RecoveryShortfallRow, WorkItemRow, PartnerEvidenceRow, ReceiptRow,
}

pub record Database : Type 0 where
  pub tenants : List TenantRow
  pub plan_revisions : List PlanRevisionRow
  pub lots : List LotRow
  pub vehicles : List VehicleRow
  pub orders : List OrderRow
  pub custody_nodes : List CustodyNodeRow
  pub custody_edges : List CustodyEdgeRow
  pub plan_constraints : List PlanConstraintRow
  pub approvals : List ApprovalRow
  pub coordinators : List CoordinatorRow
  pub incidents : List IncidentRow
  pub inbound_events : List InboundEventRow
  pub movement_barriers : List MovementBarrierRow
  pub recovery_allocations : List RecoveryAllocationRow
  pub recovery_shortfalls : List RecoveryShortfallRow
  pub work_items : List WorkItemRow
  pub partner_evidence_events : List PartnerEvidenceRow
  pub receipts : List ReceiptRow

-- One call of `transaction.insert`, or of `insert_or_update`, with its rows.
pub data Mutation : Type 0 where
  insert_tenants : List TenantRow → Mutation
  insert_plan_revisions : List PlanRevisionRow → Mutation
  insert_lots : List LotRow → Mutation
  insert_vehicles : List VehicleRow → Mutation
  insert_orders : List OrderRow → Mutation
  insert_custody_nodes : List CustodyNodeRow → Mutation
  insert_custody_edges : List CustodyEdgeRow → Mutation
  insert_plan_constraints : List PlanConstraintRow → Mutation
  insert_approvals : List ApprovalRow → Mutation
  insert_inbound_events : List InboundEventRow → Mutation
  insert_incidents : List IncidentRow → Mutation
  insert_movement_barriers : List MovementBarrierRow → Mutation
  insert_recovery_allocations : List RecoveryAllocationRow → Mutation
  insert_recovery_shortfalls : List RecoveryShortfallRow → Mutation
  insert_work_items : List WorkItemRow → Mutation
  insert_partner_evidence : List PartnerEvidenceRow → Mutation
  insert_receipts : List ReceiptRow → Mutation
  upsert_coordinators : List CoordinatorRow → Mutation
  upsert_incidents : List IncidentRow → Mutation

module _ {A : Type 0} (table : String) (same_key : A → A → Bool) (has_parent : A → Bool) where
  -- The rows of one insert, in order.
  unfoldable pub insert_rows : List A → List A → Result (List A)
  insert_rows [] rows = ok rows
  insert_rows (r ∷ rest) rows = do
    raise_if (any (same_key r) rows) (already_exists table)
    guard (has_parent r) (parent_missing table)
    insert_rows rest (r ∷ rows)

  abbrev replace : A → List A → List A
  replace r [] = []
  replace r (x ∷ rows) = (if same_key r x then r else x) ∷ replace r rows

  -- A row that is there is replaced in its place.
  unfoldable pub upsert_rows : List A → List A → Result (List A)
  upsert_rows [] rows = ok rows
  upsert_rows (r ∷ rest) rows = do
    guard (has_parent r) (parent_missing table)
    upsert_rows rest (if any (same_key r) rows then replace r rows else r ∷ rows)

unfoldable pub has_tenant : Database → String → Bool
has_tenant db t = any (λ (r : TenantRow). r.tenant_id == t) db.tenants

unfoldable pub has_plan : Database → String → String → String → Bool
has_plan db t p v =
    any (λ (r : PlanRevisionRow). r.tenant_id == t && (r.plan_id == p && r.revision == v))
      db.plan_revisions
