-- ===== src/Planning/Repair/Feasible.antt =====
-- A repair that is derived is one that the validator of its command accepts.
use full_shelf.Prelude.{
  ◌+◌, ◌≡◌, refl, subst, ap, String, true, false, not, ◌&&◌, ◌==◌, Option, none, some, select,
  first, concat, ltb, arith, eq_iff, Bool-cases, inl, inr, [], ◌∷◌, if◌then◌else◌, length,
}
use full_shelf.Prelude.Errors.{
  Result, ok, err, validation_error, >>=-ok, raise_if_passed, ok-injective, err-ok,
}
use full_shelf.Prelude.Sorting.{All-sort_by, All-select, All-first, first-select}
use full_shelf.Ledger.Rows.{OrderRow, VehicleRow}
use full_shelf.Ledger.Database.{Database}
use full_shelf.Ledger.Payloads.{PersistRepairProposalPayload}
use full_shelf.Ledger.Commands.{Environment}
use full_shelf.Ledger.Validators.{validate_proposal}
use full_shelf.Planning.Repair.{
  RepairChoice, choose_repair, single_revision, active_revisions, found, stranded_orders,
  other_fleet, has_headroom, repair_payload, derive_repair_proposal, proposed_revision,
  vehicle_before,
}

found-ok {ℓ} :
    {A : Type ℓ} (code : String) (o : Option A) (a : A) → found code o ≡ ok a → o ≡ some a
unfolding found
found-ok code none a h = err-ok h
found-ok code (some b) a h = ap some (ok-injective h)

-- No vehicle of the other fleet is the failed one.
other_fleet-first :
    (db : Database) (tenant_id vehicle_id : String) (v : VehicleRow)
    → first (other_fleet db tenant_id vehicle_id) ≡ some v
    → (v.vehicle_id == vehicle_id) ≡ false
unfolding other_fleet
other_fleet-first db tenant_id vehicle_id v e =
    let test = λ (v : VehicleRow).
      v.tenant_id == tenant_id && (v.is_operational && not (v.vehicle_id == vehicle_id)) in
    let passed : test v ≡ true =
      All-first (λ v. test v ≡ true) _ v
        (All-sort_by vehicle_before (λ v. test v ≡ true) (select test db.vehicles)
          (All-select test db.vehicles))
        e in
    ground (arith, passed)

-- What is chosen: a vehicle other than the failed one, an order that fits it and another order.
pub record IsFeasible (vehicle_id : String) (c : RepairChoice) : Type 0 where
  pub elsewhere : (c.absorbing.vehicle_id == vehicle_id) ≡ false
  pub fits :
      ltb c.absorbing.max_capacity_cases (c.absorbing.current_load_cases + c.reroute.cases) ≡ false
  pub apart : (c.pickup.order_id == c.reroute.order_id) ≡ false

choose_repair-IsFeasible :
    (db : Database) (tenant_id plan_id vehicle_id : String) (c : RepairChoice)
    → choose_repair db tenant_id plan_id vehicle_id ≡ ok c
    → IsFeasible vehicle_id c
unfolding choose_repair has_headroom
choose_repair-IsFeasible db tenant_id plan_id vehicle_id c h =
    let (revision, _, h1) = >>=-ok (single_revision (active_revisions db tenant_id plan_id)) _ h in
    let pending =
      select (λ (o : OrderRow). not (o.status == "DELIVERED"))
        (stranded_orders db tenant_id plan_id revision vehicle_id) in
    let (_, h2) = raise_if_passed (ltb (length pending) 2) _ _ h1 in
    let (v, ev, h3) = >>=-ok (found _ (first (other_fleet db tenant_id vehicle_id))) _ h2 in
    let (r, er, h4) =
      >>=-ok (found _ (first (select (λ (o : OrderRow). has_headroom o.cases v) pending))) _ h3 in
    let (p, ep, h5) =
      >>=-ok (found _ (first (select (λ (o : OrderRow). not (o.order_id == r.order_id)) pending))) _
        h4 in
    subst (IsFeasible vehicle_id) (ok-injective h5) (record {
      elsewhere = other_fleet-first db tenant_id vehicle_id v (found-ok _ _ v ev);
      fits =
          let room =
            first-select (λ (o : OrderRow). has_headroom o.cases v) pending r (found-ok _ _ r er) in
          ground (arith, room);
      apart =
          let other =
            first-select (λ (o : OrderRow). not (o.order_id == r.order_id)) pending p
              (found-ok _ _ p ep) in
          ground (arith, other);
    })

abbrev IsValidated : PersistRepairProposalPayload → Type 0
IsValidated p = validate_proposal p ≡ (
    if p.source_revision == proposed_revision
    then err (validation_error "PROPOSAL_MUST_ADVANCE_A_REVISION")
    else ok tt)

-- Of a feasible choice, only the fixed label of the new revision can be refused.
payload-validates :
    (x : Environment) (tenant_id plan_id vehicle_id source_event_id : String) (c : RepairChoice)
    → IsFeasible vehicle_id c
    → validate_proposal (repair_payload x tenant_id plan_id vehicle_id source_event_id c) ≡ (
        if c.source_revision == proposed_revision
        then err (validation_error "PROPOSAL_MUST_ADVANCE_A_REVISION")
        else ok tt)
unfolding validate_proposal repair_payload
payload-validates x tenant_id plan_id vehicle_id source_event_id c feasible =
    let apart : (c.reroute.order_id == c.pickup.order_id) ≡ false = ground (
      arith,
      feasible.apart,
      eq_iff c.pickup.order_id c.reroute.order_id,
      eq_iff c.reroute.order_id c.pickup.order_id,
    ) in
    elim (Bool-cases (c.source_revision == proposed_revision)) [
      | inl same ↦ rw same refl
      | inr new ↦ rw (new, feasible.fits, apart, feasible.elsewhere) refl
    ]

-- A repair proposal that is derived is one that the ledger's validator accepts, except where the active revision already has the label that every proposal gets: then it
-- is refused.
pub derive_repair_proposal-validates :
    (x : Environment) (run_fleet : RepairChoice → Result (Unit {0})) (db : Database)
    (tenant_id operating_day vehicle_id source_event_id : String) (p : PersistRepairProposalPayload)
    → derive_repair_proposal x run_fleet db tenant_id operating_day vehicle_id source_event_id
      ≡ ok p
    → validate_proposal p ≡ (
        if p.source_revision == proposed_revision
        then err (validation_error "PROPOSAL_MUST_ADVANCE_A_REVISION")
        else ok tt)
unfolding derive_repair_proposal repair_payload
derive_repair_proposal-validates x run_fleet db tenant_id operating_day vehicle_id source_event_id p
      h =
    let plan_id = concat ("PLAN-" ∷ operating_day ∷ []) in
    let (c, chosen, h1) = >>=-ok (choose_repair db tenant_id plan_id vehicle_id) _ h in
    let (u, _, h2) = >>=-ok (run_fleet c) _ h1 in
    let made = ok-injective h2 in
    let feasible = choose_repair-IsFeasible db tenant_id plan_id vehicle_id c chosen in
    subst IsValidated made
      (payload-validates x tenant_id plan_id vehicle_id source_event_id c feasible)
