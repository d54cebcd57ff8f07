-- ===== src/Ledger/Apply/Repair/Activation.antt =====
-- What a successful activation of a signed repair has checked, and the orders that it writes.
use full_shelf.Prelude.{
  ℕ, ◌+◌, ◌≤◌, ◌<◌, String, true, false, ◌≡◌, refl, sym, ◌∙◌, ap, Option, select, and-true, eq_iff,
  none, some, List, [], ◌∷◌, ◌++◌, map, ◌==◌, ltb-false→le, leb-false→lt, leb, ltb, not-both, subst,
  nat_eq→eq, All, Bool-cases, inl, inr, if◌then◌else◌, contains, option_eq, concat, nat_eq,
  count_where, ◌&&◌,
}
use full_shelf.Prelude.Sorting.{sort_by, ltb_text}
use full_shelf.Prelude.Errors.{ok, >>=-ok, ok-injective, guard_passed, raise_if_passed}
use full_shelf.Policy.Models.{PlanDiff}
use full_shelf.Ledger.Rows.{ApprovalRow, OrderRow, VehicleRow}
use full_shelf.Ledger.Database.{Database, insert_orders, insert_plan_revisions}
use full_shelf.Ledger.Commit.{Transaction}
use full_shelf.Ledger.Payloads.{ActivateApprovedRepairPlanPayload, SignedRepairDiffPayload}
use full_shelf.Ledger.Commands.{LedgerCommand, Environment}
use full_shelf.Ledger.Digests.{make_diff, compute_plan_diff_hash}
use full_shelf.Ledger.Apply.Repair.{
  expect, only, loaded_diff, approval_in_scope, repair_order, repair_orders, is_active_plan,
  source_orders, find_vehicles, find_approvals, check_activation, proposed_row, proposed_order,
  apply_activate,
}

-- The repair names one row.
only-ok {ℓ} :
    {A : Type ℓ} (rows : List A) (code : String) {a : A} → only rows code ≡ ok a → rows ≡ a ∷ []
only-ok [] code h = cc
only-ok (r ∷ []) code h = cc
only-ok (r ∷ s ∷ rows) code h = cc

expected {ℓ} :
    {A : Type ℓ} (o : Option A) (code : String) {a : A} → expect o code ≡ ok a → o ≡ some a
expected none code h = cc
expected (some a) code h = ap some (ok-injective h)

-- The order as the signed diff wants it.
abbrev pub repaired : PlanDiff → OrderRow → OrderRow
repaired d o =
    if o.order_id == d.reroute_order_id
    then record o { assigned_vehicle_id = some d.reroute_target_vehicle; status = "REROUTED" }
    else if o.order_id == d.pickup_order_id
    then record o { assigned_vehicle_id = none; status = "PARTNER_PICKUP_CONVERTED" }
    else o

-- An order that the diff names has the cases that were signed.
abbrev pub HasSignedCases : PlanDiff → OrderRow → Type 0
HasSignedCases d o =
    ((o.order_id == d.reroute_order_id) ≡ true → o.cases ≡ d.reroute_cases)
    × ((o.order_id == d.reroute_order_id) ≡ false
        → (o.order_id == d.pickup_order_id) ≡ true
        → o.cases ≡ d.pickup_cases)

repair_order_lem :
    (d : PlanDiff) (o : OrderRow) {o' : OrderRow}
    → repair_order d o ≡ ok o'
    → (o' ≡ repaired d o) × HasSignedCases d o
unfolding repair_order
repair_order_lem d o h = elim (Bool-cases (o.order_id == d.reroute_order_id)) [
  | inl first ↦
      let (q, k) = guard_passed (nat_eq o.cases d.reroute_cases) _ _ (rw first at h) in
      (rw first (sym (ok-injective k)), ((λ t. nat_eq→eq _ _ q), λ n t. not-both _ first n))
  | inr other ↦ elim (Bool-cases (o.order_id == d.pickup_order_id)) [
    | inl second ↦
        let (q, k) = guard_passed (nat_eq o.cases d.pickup_cases) _ _ (rw (other, second) at h) in
        (
          rw (other, second) (sym (ok-injective k)),
          ((λ t. not-both _ t other), λ n t. nat_eq→eq _ _ q),
        )
    | inr neither ↦
        let k = rw (other, neither) at h in
        (
          rw (other, neither) (sym (ok-injective k)),
          ((λ t. not-both _ t other), λ n t. not-both _ t neither),
        )
  ]
]

pub repair_orders_lem :
    (d : PlanDiff) (os : List OrderRow) {os' : List OrderRow}
    → repair_orders d os ≡ ok os'
    → (os' ≡ map (repaired d) os) × All (HasSignedCases d) os
unfolding repair_orders
repair_orders_lem d [] h = (ok-injective (sym h), tt)
repair_orders_lem d (o ∷ os) h =
    let (o1, e, f) = >>=-ok (repair_order d o) _ h in
    let (rest, g, i) = >>=-ok (repair_orders d os) _ f in
    let (j, k) = repair_order_lem d o e in
    let (l, m) = repair_orders_lem d os g in (sym (ok-injective i) ∙ (rw (j, l) refl), (k, m))

-- The tenant's orders of the plan at the source revision, by identifier.
abbrev pub orders_of : Database → String → ActivateApprovedRepairPlanPayload → List OrderRow
orders_of db tenant_id p =
    sort_by (λ (a b : OrderRow). ltb_text a.order_id b.order_id)
      (select
        (λ (o : OrderRow).
          o.tenant_id == tenant_id && (o.plan_id == p.plan_id && o.revision == p.source_revision))
        db.orders)

module _ (x : Environment) where
  -- What holds when `check_activation` succeeds.
  pub record IsChecked (c : LedgerCommand) (p : ActivateApprovedRepairPlanPayload) (db : Database)
      (checked : PlanDiff × List OrderRow) : Type 0 where
    pub approval : ApprovalRow
    pub vehicle : VehicleRow
    pub one_approval :
        select
          (λ (a : ApprovalRow). a.tenant_id == c.tenant_id && a.approval_id == p.approval_id)
          db.approvals
        ≡ approval ∷ []
    pub same_incident : approval.incident_id ≡ c.incident_id
    pub same_plan : approval.plan_id ≡ p.plan_id
    pub same_day : x.parse_date p.operating_day ≡ some approval.operating_day
    pub same_scope : approval.authority_scope ≡ concat (c.tenant_id ∷ "@" ∷ p.operating_day ∷ [])
    pub same_source : approval.source_revision ≡ p.source_revision
    pub same_proposed : approval.proposed_revision ≡ p.proposed_revision
    pub not_expired : x.now < approval.expires_at
    pub signed : SignedRepairDiffPayload
    pub stored : loaded_diff (x.loads approval.plan_diff_json) ≡ some signed
    pub is_signed :
        checked.0
        ≡ make_diff approval.source_revision approval.proposed_revision approval.plan_diff_hash
            signed
    pub hash_holds : (compute_plan_diff_hash x checked.0 == approval.plan_diff_hash) ≡ true
    pub one_vehicle :
        select
          (λ (v : VehicleRow).
            v.tenant_id == c.tenant_id && v.vehicle_id == checked.0.reroute_target_vehicle)
          db.vehicles
        ≡ vehicle ∷ []
    pub operational : vehicle.is_operational ≡ true
    pub fits : vehicle.current_load_cases + checked.0.reroute_cases ≤ vehicle.max_capacity_cases
    pub written : checked.1 ≡ map (repaired checked.0) (orders_of db c.tenant_id p)
    pub quantities : All (HasSignedCases checked.0) (orders_of db c.tenant_id p)

  -- The stored approval and the command agree on every column of the scope.
  scope_agrees :
      (a : ApprovalRow) (c : LedgerCommand) (p : ActivateApprovedRepairPlanPayload) (day : ℕ)
      → approval_in_scope a c p day ≡ true
      → (a.incident_id ≡ c.incident_id)
        × (a.plan_id ≡ p.plan_id)
        × (a.operating_day ≡ day)
        × (a.authority_scope ≡ p.authority_scope)
        × (a.source_revision ≡ p.source_revision)
        × (a.proposed_revision ≡ p.proposed_revision)
  unfolding approval_in_scope
  scope_agrees a c p day h =
      let (incident, h1) = and-true (a.incident_id == c.incident_id) _ h in
      let (plan, h2) = and-true (a.plan_id == p.plan_id) _ h1 in
      let (on_day, h3) = and-true (nat_eq a.operating_day day) _ h2 in
      let (scope, h4) = and-true (a.authority_scope == p.authority_scope) _ h3 in
      let (source, proposed) = and-true (a.source_revision == p.source_revision) _ h4 in
      (
        (eq_iff _ _).0 incident,
        (eq_iff _ _).0 plan,
        nat_eq→eq _ _ on_day,
        (eq_iff _ _).0 scope,
        (eq_iff _ _).0 source,
        (eq_iff _ _).0 proposed,
      )

  check_activation-IsChecked :
      (c : LedgerCommand) (p : ActivateApprovedRepairPlanPayload) (db : Database)
      (checked : PlanDiff × List OrderRow)
      → check_activation x c p db ≡ ok checked
      → IsChecked c p db checked
  unfolding check_activation find_approvals find_vehicles source_orders
  check_activation-IsChecked c p db checked h0 =
      let (scope, h1) =
        guard_passed (p.authority_scope == concat (c.tenant_id ∷ "@" ∷ p.operating_day ∷ [])) _ _
          h0 in
      let (rev, h2) =
        guard_passed (option_eq c.expected_plan_revision (some p.source_revision)) _ _ h1 in
      let (approval, e3, h3) =
        >>=-ok
          (only (find_approvals db c.tenant_id p.approval_id) "PERSISTED_REPAIR_APPROVAL_NOT_FOUND")
          _ h2 in
      let (day, e4, h4) =
        >>=-ok (expect (x.parse_date p.operating_day) "OPERATING_DAY_INVALID") _ h3 in
      let (same, h5) = guard_passed (approval_in_scope approval c p day) _ _ h4 in
      let (live, h6) = raise_if_passed (leb approval.expires_at x.now) _ _ h5 in
      let (signed, e7, h7) =
        >>=-ok
          (expect (loaded_diff (x.loads approval.plan_diff_json)) "PERSISTED_PLAN_DIFF_MALFORMED") _
          h6 in
      let diff = make_diff p.source_revision p.proposed_revision approval.plan_diff_hash signed in
      let (hash, h8) =
        guard_passed (compute_plan_diff_hash x diff == approval.plan_diff_hash) _ _ h7 in
      let (vehicle, e9, h9) =
        >>=-ok
          (only (find_vehicles db c.tenant_id diff.reroute_target_vehicle)
            "SIGNED_REROUTE_VEHICLE_UNAVAILABLE")
          _ h8 in
      let (working, h10) = guard_passed vehicle.is_operational _ _ h9 in
      let (room, h11) =
        raise_if_passed
          (ltb vehicle.max_capacity_cases (vehicle.current_load_cases + diff.reroute_cases)) _ _
          h10 in
      let (distinct_targets, h12) =
        raise_if_passed (diff.reroute_order_id == diff.pickup_order_id) _ _ h11 in
      let orders' = source_orders db c.tenant_id p.plan_id p.source_revision in
      let (found, h13) =
        guard_passed
          (contains diff.reroute_order_id (map (λ (o : OrderRow). o.order_id) orders')
            && contains diff.pickup_order_id (map (λ (o : OrderRow). o.order_id) orders'))
          _ _ h12 in
      let (repaired, e14, h14) = >>=-ok (repair_orders diff orders') _ h13 in
      let (written, quantities) = repair_orders_lem diff orders' e14 in
      let (incident, plan, on_day, in_scope, source, proposed) =
        scope_agrees approval c p day same in
      subst (IsChecked c p db) (ok-injective h14) (record {
        approval = approval;
        vehicle = vehicle;
        one_approval = only-ok _ _ e3;
        same_incident = incident;
        same_plan = plan;
        same_day = expected (x.parse_date p.operating_day) _ e4 ∙ ap some (sym on_day);
        same_scope = in_scope ∙ (eq_iff _ _).0 scope;
        same_source = source;
        same_proposed = proposed;
        signed = signed;
        stored = expected (loaded_diff (x.loads approval.plan_diff_json)) _ e7;
        is_signed = rw (source, proposed) refl;
        not_expired = leb-false→lt _ _ live;
        hash_holds = hash;
        one_vehicle = only-ok _ _ e9;
        operational = working;
        fits = ltb-false→le _ _ room;
        written = written;
        quantities = quantities;
      })

  -- A repair that is activated was approved: the one approval of the tenant under that identifier is
  -- for this incident, plan, operating day and pair of revisions and for the scope of that tenant and
  -- day, is not expired, and stores the diff together with its hash; the one vehicle that the diff reroutes to works and
  -- has the room beside its recorded load; the orders of the source revision that the diff names
  -- have the signed cases; and what is buffered is the proposed revision and each of those orders,
  -- repaired as the diff says.
  pub apply_activate-ok :
      (c : LedgerCommand) (p : ActivateApprovedRepairPlanPayload) (t t' : Transaction) (n : ℕ)
      → apply_activate x c p t ≡ ok (n, t')
      → (checked : PlanDiff × List OrderRow) × IsChecked c p t.db checked
        × (t'.buffer
            ≡ (t.buffer ++ insert_plan_revisions (proposed_row x c p ∷ []) ∷ [])
              ++ insert_orders (map (proposed_order x c p) checked.1) ∷ [])
  unfolding apply_activate
  apply_activate-ok c p t t' n h =
      let (checked, e, f) = >>=-ok (check_activation x c p t.db) _ h in
      let is_source = is_active_plan c.tenant_id p.plan_id p.source_revision in
      let (one, g) = guard_passed (nat_eq (count_where is_source t.db.plan_revisions) 1) _ _ f in
      (
        checked,
        check_activation-IsChecked c p t.db checked e,
        sym (ap (λ q. q.1.buffer) (ok-injective g)),
      )
