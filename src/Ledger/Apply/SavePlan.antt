-- ===== src/Ledger/Apply/SavePlan.antt =====
-- ledger_executor.py, `_apply`: SAVE_PLAN_REVISION.
pub mod Consistency
use full_shelf.Prelude.{
  ℕ, ◌+◌, String, Bool, true, not, ◌&&◌, ◌||◌, Option, none, some, List, [], ◌∷◌, map, ◌==◌, ltb,
  length, contains, distinct, all, option_eq, is_none, concat, if◌then◌else◌,
}
use full_shelf.Prelude.Errors.{Result, ok, value_error, collision, ◌>>=◌, ◌>>◌, guard, raise_if}
use full_shelf.Ledger.Json.{text, obj, end, field}
use full_shelf.Ledger.Rows.{
  LotRow, VehicleRow, OrderRow, CustodyNodeRow, CustodyEdgeRow, PlanRevisionRow, TenantRow,
  InboundEventRow,
}
use full_shelf.Ledger.Database.{
  Mutation, insert_tenants, insert_plan_revisions, insert_lots, insert_vehicles, insert_orders,
  insert_custody_nodes, insert_custody_edges, insert_inbound_events, has_tenant,
}
use full_shelf.Ledger.Commit.{Transaction, buffered}
use full_shelf.Ledger.Payloads.{
  SavePlanRevisionPayload, PlanOrderPayload, OperatingLotPayload, OperatingVehiclePayload,
  OperatingCustodyNodePayload, OperatingCustodyEdgePayload,
}
use full_shelf.Ledger.Commands.{LedgerCommand, Environment}
use full_shelf.Ledger.Digests.{operating_day_authority_id}
use full_shelf.Ledger.Queries.{plan_status}

module _ (p : SavePlanRevisionPayload) where
  abbrev pub lot_ids : List String
  lot_ids = map (λ (l : OperatingLotPayload). l.lot_id) p.lots

  abbrev pub vehicle_ids : List String
  vehicle_ids = map (λ (v : OperatingVehiclePayload). v.vehicle_id) p.vehicles

  abbrev pub node_ids : List String
  node_ids = map (λ (n : OperatingCustodyNodePayload). n.node_id) p.custody_nodes

  -- `assigned_vehicle_id is not None and assigned_vehicle_id not in vehicle_ids`
  abbrev pub vehicle_defined : Option String → Bool
  vehicle_defined none = true
  vehicle_defined (some v) = contains v vehicle_ids

  -- The loop over the orders; the first failing order decides the error.
  unfoldable pub check_orders : List PlanOrderPayload → Result (Unit {0})
  check_orders [] = ok tt
  check_orders (o ∷ orders) = do
    guard (contains o.lot_id lot_ids) (value_error "ORDER_LOT_NOT_DEFINED")
    guard (vehicle_defined o.assigned_vehicle_id) (value_error "ORDER_VEHICLE_NOT_DEFINED")
    check_orders orders

  unfoldable pub check_edges : List OperatingCustodyEdgePayload → Result (Unit {0})
  check_edges [] = ok tt
  check_edges (e ∷ edges) = do
    guard (contains e.source_node_id node_ids && contains e.target_node_id node_ids)
        (value_error "CUSTODY_EDGE_NODE_NOT_DEFINED")
    guard (contains e.lot_id lot_ids) (value_error "CUSTODY_EDGE_LOT_NOT_DEFINED")
    check_edges edges

  unfoldable pub check_references : Result (Unit {0})
  check_references = do
    guard (distinct lot_ids) (value_error "DUPLICATE_LOT_ID")
    guard (distinct vehicle_ids) (value_error "DUPLICATE_VEHICLE_ID")
    guard (distinct (map (λ (o : PlanOrderPayload). o.order_id) p.orders))
        (value_error "DUPLICATE_ORDER_ID")
    guard (distinct node_ids) (value_error "DUPLICATE_CUSTODY_NODE_ID")
    guard (distinct (map (λ (e : OperatingCustodyEdgePayload). e.edge_id) p.custody_edges))
        (value_error "DUPLICATE_CUSTODY_EDGE_ID")
    guard
        (all (λ (v : OperatingVehiclePayload). not (ltb v.max_capacity_cases v.current_load_cases))
          p.vehicles)
        (value_error "VEHICLE_LOAD_EXCEEDS_CAPACITY")
    check_orders p.orders
    check_edges p.custody_edges

  -- The rows, column by column.
  lot_row : String → OperatingLotPayload → LotRow
  lot_row t l = record {
    tenant_id = t;
    lot_id = l.lot_id;
    code = l.code;
    produce_type = l.produce_type;
    hazard_status = l.hazard_status;
    total_cases = l.total_cases;
  }

  vehicle_row : String → OperatingVehiclePayload → VehicleRow
  vehicle_row t v = record {
    tenant_id = t;
    vehicle_id = v.vehicle_id;
    name = v.name;
    max_capacity_cases = v.max_capacity_cases;
    current_load_cases = v.current_load_cases;
    is_operational = v.is_operational;
  }

  order_row : String → PlanOrderPayload → OrderRow
  order_row t o = record {
    tenant_id = t;
    plan_id = p.plan_id;
    revision = p.revision;
    order_id = o.order_id;
    destination_agency_id = o.destination_agency_id;
    destination_agency_name = o.destination_agency_name;
    cases = o.cases;
    lot_id = o.lot_id;
    assigned_vehicle_id = o.assigned_vehicle_id;
    status = o.status;
  }

  node_row : String → OperatingCustodyNodePayload → CustodyNodeRow
  node_row t n = record {
    tenant_id = t;
    node_id = n.node_id;
    node_type = n.node_type;
    name = n.name;
    on_hand_cases = n.on_hand_cases;
    acknowledgment_status = n.acknowledgment_status;
  }

  edge_row : String → OperatingCustodyEdgePayload → CustodyEdgeRow
  edge_row t e = record {
    tenant_id = t;
    edge_id = e.edge_id;
    source_node_id = e.source_node_id;
    target_node_id = e.target_node_id;
    lot_id = e.lot_id;
    case_count = e.case_count;
    is_sub_distribution = e.is_sub_distribution;
  }

  abbrev pub plan_row : String → PlanRevisionRow
  plan_row t = record {
    tenant_id = t;
    plan_id = p.plan_id;
    revision = p.revision;
    status = p.status;
  }

module _ (x : Environment) where
  request_event : LedgerCommand → SavePlanRevisionPayload → InboundEventRow
  request_event c p = record {
    tenant_id = c.tenant_id;
    source_event_id = c.idempotency_key;
    event_type = "PLAN_DAY_REQUESTED";
    status = "ACCEPTED";
    payload = x.dumps (
        obj (
          field "authority_scope" (text p.authority_scope) (
            field "logical_tenant_id" (text p.logical_tenant_id) (
              field "operating_day" (text p.operating_day)
                (field "plan_id" (text p.plan_id) (field "revision" (text p.revision) end))))));
  }

  -- The inserts behind that of the tenant.
  unfoldable pub plan_inserts : LedgerCommand → SavePlanRevisionPayload → Transaction → Transaction
  unfolding lot_row vehicle_row order_row node_row edge_row request_event
  plan_inserts c p t = buffered (insert_inbound_events (request_event c p ∷ [])) (
      buffered (insert_custody_edges (map (edge_row p c.tenant_id) p.custody_edges)) (
        buffered (insert_custody_nodes (map (node_row p c.tenant_id) p.custody_nodes)) (
          buffered (insert_orders (map (order_row p c.tenant_id) p.orders)) (
            buffered (insert_vehicles (map (vehicle_row p c.tenant_id) p.vehicles)) (
              buffered (insert_lots (map (lot_row p c.tenant_id) p.lots))
                (buffered (insert_plan_revisions (plan_row p c.tenant_id ∷ [])) t))))))

  unfoldable pub apply_save_plan :
      LedgerCommand
      → SavePlanRevisionPayload
      → Option String
      → Transaction
      → Result (ℕ × Transaction)
  apply_save_plan c p active t = do
    authority ← operating_day_authority_id x p.logical_tenant_id p.operating_day
    guard (c.tenant_id == authority) (value_error "OPERATING_DAY_STORAGE_AUTHORITY_MISMATCH")
    guard (p.authority_scope == concat (p.logical_tenant_id ∷ "@" ∷ p.operating_day ∷ []))
        (value_error "OPERATING_DAY_AUTHORITY_SCOPE_MISMATCH")
    guard (is_none (plan_status t.db c.tenant_id p.plan_id p.revision))
        (collision "BUSINESS_IDENTITY_ALREADY_EXISTS")
    raise_if
        (p.status == "ACTIVE" && (not (is_none active) && not (option_eq (some p.revision) active)))
        (value_error "ACTIVE_PLAN_REPLACEMENT_REQUIRES_REPAIR_COMMAND")
    check_references p
    let new_tenant = not (has_tenant t.db c.tenant_id)
    let tenant : TenantRow = record { tenant_id = c.tenant_id; name = p.tenant_name }
    let t' = if new_tenant then buffered (insert_tenants (tenant ∷ [])) t else t
    ok (
      (if new_tenant then 1 else 0)
          + 1
          + length p.lots
          + length p.vehicles
          + length p.orders
          + length p.custody_nodes
          + length p.custody_edges
          + 1,
      plan_inserts c p t',
    )
