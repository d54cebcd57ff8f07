-- ===== src/Ledger/Apply/SavePlan/Consistency.antt =====
-- SAVE_PLAN_REVISION: the references of a plan that the ledger accepts.
use full_shelf.Prelude.{
  ℕ, ◌≤◌, String, true, false, not, ◌&&◌, ◌≡◌, refl, ap, ◌⊎◌, inl, inr, Option, none, some, List,
  [], ◌∷◌, map, ◌==◌, arith, All, all, contains, distinct, is_none, option_eq, ltb, ltb-false→le,
  and-true, eq_iff, concat,
}
use full_shelf.Prelude.Errors.{ok, >>=-ok, guard_passed, raise_if_passed}
use full_shelf.Ledger.Commit.{Transaction}
use full_shelf.Ledger.Payloads.{
  SavePlanRevisionPayload, PlanOrderPayload, OperatingVehiclePayload, OperatingCustodyEdgePayload,
}
use full_shelf.Ledger.Commands.{LedgerCommand, Environment}
use full_shelf.Ledger.Digests.{operating_day_authority_id}
use full_shelf.Ledger.Queries.{plan_status}
use full_shelf.Ledger.Apply.SavePlan.{
  lot_ids, vehicle_ids, node_ids, vehicle_defined, check_orders, check_edges, check_references,
  apply_save_plan,
}

module _ (p : SavePlanRevisionPayload) where
  abbrev pub IsPlaced : PlanOrderPayload → Type 0
  IsPlaced o =
      (contains o.lot_id (lot_ids p) ≡ true) × (vehicle_defined p o.assigned_vehicle_id ≡ true)

  abbrev pub IsJoined : OperatingCustodyEdgePayload → Type 0
  IsJoined e =
      (contains e.source_node_id (node_ids p) ≡ true)
      × (contains e.target_node_id (node_ids p) ≡ true)
      × (contains e.lot_id (lot_ids p) ≡ true)

  abbrev pub IsLoaded : OperatingVehiclePayload → Type 0
  IsLoaded v = v.current_load_cases ≤ v.max_capacity_cases

  -- A plan whose identifiers are distinct and whose references stay inside it.
  pub record IsConsistent : Type 0 where
    pub lots : distinct (lot_ids p) ≡ true
    pub vehicles : distinct (vehicle_ids p) ≡ true
    pub orders : distinct (map (λ (o : PlanOrderPayload). o.order_id) p.orders) ≡ true
    pub nodes : distinct (node_ids p) ≡ true
    pub edges :
        distinct (map (λ (e : OperatingCustodyEdgePayload). e.edge_id) p.custody_edges) ≡ true
    pub loaded : All IsLoaded p.vehicles
    pub placed : All IsPlaced p.orders
    pub joined : All IsJoined p.custody_edges

  IsLoaded-all :
      (vs : List OperatingVehiclePayload)
      → all
          (λ (v : OperatingVehiclePayload). not (ltb v.max_capacity_cases v.current_load_cases))
          vs
        ≡ true
      → All IsLoaded vs
  IsLoaded-all [] h = tt
  IsLoaded-all (v ∷ vs) h =
      let (first, rest) = and-true (not (ltb v.max_capacity_cases v.current_load_cases)) _ h in
      (ltb-false→le v.max_capacity_cases v.current_load_cases (ground arith), IsLoaded-all vs rest)

  orders-IsPlaced :
      (os : List PlanOrderPayload) {u : Unit {0}} → check_orders p os ≡ ok u → All IsPlaced os
  unfolding check_orders
  orders-IsPlaced [] h = tt
  orders-IsPlaced (o ∷ os) h =
      let (lot, h1) = guard_passed (contains o.lot_id (lot_ids p)) _ _ h in
      let (vehicle, h2) = guard_passed (vehicle_defined p o.assigned_vehicle_id) _ _ h1 in
      ((lot, vehicle), orders-IsPlaced os h2)

  edges-IsJoined :
      (es : List OperatingCustodyEdgePayload) {u : Unit {0}}
      → check_edges p es ≡ ok u
      → All IsJoined es
  unfolding check_edges
  edges-IsJoined [] h = tt
  edges-IsJoined (e ∷ es) h =
      let (nodes, h1) =
        guard_passed
          (contains e.source_node_id (node_ids p) && contains e.target_node_id (node_ids p)) _ _
          h in
      let (lot, h2) = guard_passed (contains e.lot_id (lot_ids p)) _ _ h1 in
      let (source, target) = and-true (contains e.source_node_id (node_ids p)) _ nodes in
      ((source, target, lot), edges-IsJoined es h2)

  references-IsConsistent : {u : Unit {0}} → check_references p ≡ ok u → IsConsistent
  unfolding check_references
  references-IsConsistent h =
      let (lots, h1) = guard_passed (distinct (lot_ids p)) _ _ h in
      let (vehicles, h2) = guard_passed (distinct (vehicle_ids p)) _ _ h1 in
      let (orders, h3) =
        guard_passed (distinct (map (λ (o : PlanOrderPayload). o.order_id) p.orders)) _ _ h2 in
      let (nodes, h4) = guard_passed (distinct (node_ids p)) _ _ h3 in
      let (edges, h5) =
        guard_passed
          (distinct (map (λ (e : OperatingCustodyEdgePayload). e.edge_id) p.custody_edges)) _ _
          h4 in
      let (loads, h6) =
        guard_passed
          (all
            (λ (v : OperatingVehiclePayload). not (ltb v.max_capacity_cases v.current_load_cases))
            p.vehicles)
          _ _ h5 in
      let (u, e, h7) = >>=-ok (check_orders p p.orders) _ h6 in
      record {
        lots = lots;
        vehicles = vehicles;
        orders = orders;
        nodes = nodes;
        edges = edges;
        loaded = IsLoaded-all p.vehicles loads;
        placed = orders-IsPlaced p.orders e;
        joined = edges-IsJoined p.custody_edges h7;
      }

free-active :
    (active : Option String) (revision : String)
    → (not (is_none active) && not (option_eq (some revision) active)) ≡ false
    → (active ≡ none) ⊎ (active ≡ some revision)
free-active none revision h = inl refl
free-active (some a) revision h = inr (ap some (ground (arith, eq_iff revision a)))

module _ (x : Environment) where
  -- A plan that the ledger saves has distinct identifiers, no vehicle over its capacity, and no
  -- order or custody edge that refers to a lot, vehicle or node outside the plan; its tenant is
  -- the storage authority of its operating day; this revision of the plan was not there before;
  -- and it is ACTIVE only if the tenant has no active revision or one of the same label.
  pub apply_save_plan-IsConsistent :
      (c : LedgerCommand) (p : SavePlanRevisionPayload) (active : Option String)
      (t t' : Transaction) (n : ℕ)
      → apply_save_plan x c p active t ≡ ok (n, t')
      → IsConsistent p
        × (operating_day_authority_id x p.logical_tenant_id p.operating_day ≡ ok c.tenant_id)
        × (is_none (plan_status t.db c.tenant_id p.plan_id p.revision) ≡ true)
        × ((p.status == "ACTIVE") ≡ true → (active ≡ none) ⊎ (active ≡ some p.revision))
  unfolding apply_save_plan
  apply_save_plan-IsConsistent c p active t t' n h =
      let (authority, e, h1) =
        >>=-ok (operating_day_authority_id x p.logical_tenant_id p.operating_day) _ h in
      let (own, h2) = guard_passed (c.tenant_id == authority) _ _ h1 in
      let (scope, h3) =
        guard_passed
          (p.authority_scope == concat (p.logical_tenant_id ∷ "@" ∷ p.operating_day ∷ [])) _ _ h2 in
      let (new, h4) =
        guard_passed (is_none (plan_status t.db c.tenant_id p.plan_id p.revision)) _ _ h3 in
      let (free, h5) =
        raise_if_passed
          (p.status == "ACTIVE"
            && (not (is_none active) && not (option_eq (some p.revision) active)))
          _ _ h4 in
      let (u, f, h6) = >>=-ok (check_references p) _ h5 in
      (
        references-IsConsistent p f,
        rw ((eq_iff c.tenant_id authority).0 own) e,
        new,
        λ wants. free-active active p.revision (rw wants at free),
      )
