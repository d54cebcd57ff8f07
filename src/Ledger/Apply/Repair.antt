-- ===== src/Ledger/Apply/Repair.antt =====
-- ledger_executor.py, `_apply`: PERSIST_REPAIR_APPROVAL, ACTIVATE_APPROVED_REPAIR_PLAN and
-- INVALIDATE_PLAN.
pub mod Activation
pub mod Actives
use full_shelf.Prelude.{
  ℕ, ◌+◌, String, Bool, true, false, not, ◌&&◌, ◌||◌, Option, none, some, List, [], ◌∷◌, map, ◌==◌,
  ltb, leb, nat_eq, length, contains, option_eq, select, count_where, update_where, concat,
  if◌then◌else◌,
}
use full_shelf.Prelude.Sorting.{sort_by, ltb_text}
use full_shelf.Prelude.Errors.{Result, ok, err, value_error, ◌>>=◌, ◌>>◌, guard, raise_if}
use full_shelf.Policy.Models.{PlanDiff}
use full_shelf.Ledger.Json.{Json, obj, get_text, get_num}
use full_shelf.Ledger.Rows.{ApprovalRow, OrderRow, PlanRevisionRow, VehicleRow}
use full_shelf.Ledger.Database.{Database, insert_approvals, insert_orders, insert_plan_revisions}
use full_shelf.Ledger.Commit.{Transaction, buffered}
use full_shelf.Ledger.Payloads.{
  PersistRepairApprovalPayload, ActivateApprovedRepairPlanPayload, InvalidatePlanPayload,
  SignedRepairDiffPayload,
}
use full_shelf.Ledger.Commands.{LedgerCommand, Environment}
use full_shelf.Ledger.Digests.{make_diff, diff_fields, compute_plan_diff_hash}

-- A parse that raises where it fails.
abbrev pub expect {ℓ} : {A : Type ℓ} → Option A → String → Result A
expect none code = err (value_error code)
expect (some a) code = ok a

-- `len(rows) == 1`, and the row.
abbrev pub only {ℓ} : {A : Type ℓ} → List A → String → Result A
only [] code = err (value_error code)
only (r ∷ []) code = ok r
only (r ∷ s ∷ rows) code = err (value_error code)

abbrev join_diff :
    Option String
    → Option ℕ
    → Option String
    → Option String
    → Option ℕ
    → Option SignedRepairDiffPayload
join_diff (some o) (some n) (some v) (some q) (some m) = some (record {
  reroute_order_id = o;
  reroute_cases = n;
  reroute_target_vehicle = v;
  pickup_order_id = q;
  pickup_cases = m;
})
join_diff _ _ _ _ _ = none

-- The five fields of a stored diff, where each has its type.
unfoldable pub diff_of_json : Json → Option SignedRepairDiffPayload
diff_of_json j =
    join_diff (get_text "reroute_order_id" j) (get_num "reroute_cases" j)
      (get_text "reroute_target_vehicle" j) (get_text "pickup_order_id" j)
      (get_num "pickup_cases" j)

-- `json.loads` and then `PlanDiff(…)`; either may raise.
abbrev pub loaded_diff : Option Json → Option SignedRepairDiffPayload
loaded_diff none = none
loaded_diff (some j) = diff_of_json j

-- `tuple(approval[0:6]) == (…)`
unfoldable pub approval_in_scope :
    ApprovalRow → LedgerCommand → ActivateApprovedRepairPlanPayload → ℕ → Bool
approval_in_scope a c p day =
    a.incident_id == c.incident_id
    && (a.plan_id == p.plan_id
        && (nat_eq a.operating_day day
            && (a.authority_scope == p.authority_scope
                && (a.source_revision == p.source_revision
                    && a.proposed_revision == p.proposed_revision))))

-- One round of the loop that repairs the source orders.
unfoldable pub repair_order : PlanDiff → OrderRow → Result OrderRow
repair_order d o =
    if o.order_id == d.reroute_order_id
    then (do
      guard (nat_eq o.cases d.reroute_cases) (value_error "SIGNED_REROUTE_QUANTITY_MISMATCH")
      ok (record o { assigned_vehicle_id = some d.reroute_target_vehicle; status = "REROUTED" }))
    else if o.order_id == d.pickup_order_id
    then (do
      guard (nat_eq o.cases d.pickup_cases) (value_error "SIGNED_PICKUP_QUANTITY_MISMATCH")
      ok (record o { assigned_vehicle_id = none; status = "PARTNER_PICKUP_CONVERTED" }))
    else ok o

unfoldable pub repair_orders : PlanDiff → List OrderRow → Result (List OrderRow)
repair_orders d [] = ok []
repair_orders d (o ∷ orders) = do
  o' ← repair_order d o
  rest ← repair_orders d orders
  ok (o' ∷ rest)

-- The rows of one plan at one revision that are ACTIVE.
abbrev pub is_active_plan : String → String → String → PlanRevisionRow → Bool
is_active_plan tenant_id plan_id revision r =
    r.tenant_id == tenant_id
    && (r.plan_id == plan_id && (r.revision == revision && r.status == "ACTIVE"))

-- `UPDATE PlanRevisions SET status = … WHERE … AND status = 'ACTIVE'`
unfoldable pub set_status : String → (PlanRevisionRow → Bool) → Database → Database
set_status status p db = record db {
  plan_revisions =
      update_where p (λ (r : PlanRevisionRow). record r { status = status }) db.plan_revisions;
}

abbrev pub order_first : OrderRow → OrderRow → Bool
order_first a b = ltb_text a.order_id b.order_id

-- `ORDER BY order_id`
unfoldable pub source_orders : Database → String → String → String → List OrderRow
source_orders db tenant_id plan_id revision = sort_by order_first (
    select
      (λ (o : OrderRow).
        o.tenant_id == tenant_id && (o.plan_id == plan_id && o.revision == revision))
      db.orders)

unfoldable pub find_vehicles : Database → String → String → List VehicleRow
find_vehicles db tenant_id vehicle_id =
    select (λ (v : VehicleRow). v.tenant_id == tenant_id && v.vehicle_id == vehicle_id) db.vehicles

unfoldable pub find_approvals : Database → String → String → List ApprovalRow
find_approvals db tenant_id approval_id =
    select (λ (a : ApprovalRow). a.tenant_id == tenant_id && a.approval_id == approval_id)
      db.approvals

module _ (x : Environment) where
  approval_row : LedgerCommand → PersistRepairApprovalPayload → ℕ → ℕ → ApprovalRow
  approval_row c p day expires_at = record {
    tenant_id = c.tenant_id;
    approval_id = p.approval_id;
    incident_id = c.incident_id;
    plan_id = p.plan_id;
    operating_day = day;
    authority_scope = p.authority_scope;
    source_revision = p.source_revision;
    proposed_revision = p.proposed_revision;
    approver_subject = p.approver_subject;
    approver_email = p.approver_email;
    oauth_audience = p.oauth_audience;
    plan_diff_hash = p.plan_diff_hash;
    plan_diff_json = x.dumps_compact (obj (diff_fields p.plan_diff));
    kms_key_version = p.kms_key_version;
    kms_signature = p.kms_signature;
    expires_at = expires_at;
    trace_id = c.trace_id;
  }

  unfoldable pub apply_persist_approval :
      LedgerCommand → PersistRepairApprovalPayload → Transaction → Result (ℕ × Transaction)
  unfolding approval_row
  apply_persist_approval c p t = do
    guard (p.authority_scope == concat (c.tenant_id ∷ "@" ∷ p.operating_day ∷ []))
        (value_error "SIGNED_AUTHORITY_SCOPE_MISMATCH")
    guard (option_eq c.expected_plan_revision (some p.source_revision))
        (value_error "REPAIR_SOURCE_REVISION_MISMATCH")
    raise_if (p.source_revision == p.proposed_revision) (value_error "REPAIR_REVISION_MUST_ADVANCE")
    guard
        (compute_plan_diff_hash x
            (make_diff p.source_revision p.proposed_revision p.plan_diff_hash p.plan_diff)
          == p.plan_diff_hash)
        (value_error "SIGNED_PLAN_DIFF_HASH_MISMATCH")
    day ← expect (x.parse_date p.operating_day) "OPERATING_DAY_INVALID"
    expires_at ← expect (x.parse_instant p.expires_at) "EXPIRES_AT_INVALID"
    ok (1, buffered (insert_approvals (approval_row c p day expires_at ∷ [])) t)

  -- All that is read and checked before the plan changes: the diff and the repaired orders.
  unfoldable pub check_activation :
      LedgerCommand
      → ActivateApprovedRepairPlanPayload
      → Database
      → Result (PlanDiff × List OrderRow)
  check_activation c p db = do
    guard (p.authority_scope == concat (c.tenant_id ∷ "@" ∷ p.operating_day ∷ []))
        (value_error "SIGNED_AUTHORITY_SCOPE_MISMATCH")
    guard (option_eq c.expected_plan_revision (some p.source_revision))
        (value_error "REPAIR_SOURCE_REVISION_MISMATCH")
    approval ←
        only (find_approvals db c.tenant_id p.approval_id) "PERSISTED_REPAIR_APPROVAL_NOT_FOUND"
    day ← expect (x.parse_date p.operating_day) "OPERATING_DAY_INVALID"
    guard (approval_in_scope approval c p day) (value_error "PERSISTED_APPROVAL_SCOPE_MISMATCH")
    raise_if (leb approval.expires_at x.now) (value_error "PERSISTED_APPROVAL_EXPIRED")
    signed ← expect (loaded_diff (x.loads approval.plan_diff_json)) "PERSISTED_PLAN_DIFF_MALFORMED"
    let diff = make_diff p.source_revision p.proposed_revision approval.plan_diff_hash signed
    guard (compute_plan_diff_hash x diff == approval.plan_diff_hash)
        (value_error "PERSISTED_PLAN_DIFF_HASH_MISMATCH")
    vehicle ←
        only (find_vehicles db c.tenant_id diff.reroute_target_vehicle)
          "SIGNED_REROUTE_VEHICLE_UNAVAILABLE"
    guard vehicle.is_operational (value_error "SIGNED_REROUTE_VEHICLE_UNAVAILABLE")
    raise_if (ltb vehicle.max_capacity_cases (vehicle.current_load_cases + diff.reroute_cases))
        (value_error "SIGNED_REROUTE_EXCEEDS_CAPACITY")
    let orders = source_orders db c.tenant_id p.plan_id p.source_revision
    raise_if (diff.reroute_order_id == diff.pickup_order_id)
        (value_error "SIGNED_REPAIR_TARGETS_MUST_BE_DISTINCT")
    let order_ids = map (λ (o : OrderRow). o.order_id) orders
    guard (contains diff.reroute_order_id order_ids && contains diff.pickup_order_id order_ids)
        (value_error "SIGNED_REPAIR_TARGETS_NOT_FOUND")
    repaired ← repair_orders diff orders
    ok (diff, repaired)

  abbrev pub proposed_row : LedgerCommand → ActivateApprovedRepairPlanPayload → PlanRevisionRow
  proposed_row c p = record {
    tenant_id = c.tenant_id;
    plan_id = p.plan_id;
    revision = p.proposed_revision;
    status = "ACTIVE";
  }

  -- The row of a repaired order under the proposed revision.
  abbrev pub proposed_order :
      LedgerCommand → ActivateApprovedRepairPlanPayload → OrderRow → OrderRow
  proposed_order c p o = record o {
    tenant_id = c.tenant_id;
    plan_id = p.plan_id;
    revision = p.proposed_revision;
  }

  unfoldable pub apply_activate :
      LedgerCommand → ActivateApprovedRepairPlanPayload → Transaction → Result (ℕ × Transaction)
  apply_activate c p t = do
    checked ← check_activation c p t.db
    let is_source = is_active_plan c.tenant_id p.plan_id p.source_revision
    guard (nat_eq (count_where is_source t.db.plan_revisions) 1)
        (value_error "ACTIVE_SOURCE_PLAN_NOT_FOUND")
    let t' = record t { db = set_status "SUPERSEDED" is_source t.db }
    ok (
      2,
      buffered (insert_orders (map (proposed_order c p) checked.1))
          (buffered (insert_plan_revisions (proposed_row c p ∷ [])) t'),
    )

unfoldable pub apply_invalidate :
    LedgerCommand → InvalidatePlanPayload → Transaction → Result (ℕ × Transaction)
apply_invalidate c p t = do
  guard (option_eq c.expected_plan_revision (some p.revision))
      (value_error "INVALIDATION_REVISION_MISMATCH")
  let is_target = is_active_plan c.tenant_id p.plan_id p.revision
  guard (nat_eq (count_where is_target t.db.plan_revisions) 1)
      (value_error "ACTIVE_PLAN_INVALIDATION_PRECONDITION_FAILED")
  ok (1, record t { db = set_status "INVALIDATED_RECALL" is_target t.db })
