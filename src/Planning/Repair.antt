-- ===== src/Planning/Repair.antt =====
-- apps/orchestrator/src/main.py, `_derive_repair_proposal`: the repair for a vehicle that failed.
pub mod Feasible
use full_shelf.Prelude.{
  ℕ, ◌+◌, String, Bool, true, false, ◌&&◌, not, ◌==◌, Option, none, some, List, [], ◌∷◌, select,
  first, length, ltb, leb, nat_eq, option_eq, concat, if◌then◌else◌,
}
use full_shelf.Prelude.Errors.{Result, ok, err, http_error, ◌>>=◌, ◌>>◌, guard, raise_if}
use full_shelf.Prelude.Sorting.{sort_by, ltb_text}
use full_shelf.Ledger.Rows.{OrderRow, PlanRevisionRow, VehicleRow}
use full_shelf.Ledger.Database.{Database}
use full_shelf.Ledger.Payloads.{PersistRepairProposalPayload}
use full_shelf.Ledger.Commands.{Environment}

-- The revisions of a plan that are active.
unfoldable pub active_revisions : Database → String → String → List PlanRevisionRow
active_revisions db tenant_id plan_id =
    select (λ r. r.tenant_id == tenant_id && (r.plan_id == plan_id && r.status == "ACTIVE"))
      db.plan_revisions

order_before : OrderRow → OrderRow → Bool
order_before a b = ltb_text a.order_id b.order_id

vehicle_before : VehicleRow → VehicleRow → Bool
vehicle_before a b = ltb_text a.vehicle_id b.vehicle_id

-- The orders of the failed vehicle, and the operational vehicles other than it.
unfoldable pub stranded_orders : Database → String → String → String → String → List OrderRow
unfolding order_before
stranded_orders db tenant_id plan_id revision vehicle_id = sort_by order_before (
    select
      (λ o.
        o.tenant_id == tenant_id
        && (o.plan_id == plan_id
            && (o.revision == revision && option_eq o.assigned_vehicle_id (some vehicle_id))))
      db.orders)

unfoldable pub other_fleet : Database → String → String → List VehicleRow
unfolding vehicle_before
other_fleet db tenant_id vehicle_id = sort_by vehicle_before (
    select (λ v. v.tenant_id == tenant_id && (v.is_operational && not (v.vehicle_id == vehicle_id)))
      db.vehicles)

-- `next(iter(rows))` where there must be one.
unfoldable pub found {ℓ} : {A : Type ℓ} → String → Option A → Result A
found code none = err (http_error 409 code)
found code (some a) = ok a

-- `len(rows) == 1`
unfoldable pub single_revision : List PlanRevisionRow → Result String
single_revision (r ∷ []) = ok r.revision
single_revision _ = err (http_error 409 "NO_SINGLE_ACTIVE_PLAN_REVISION")

-- What is proposed: the rerouted order, the order for the partner, and the vehicle that takes over.
pub record RepairChoice : Type 0 where
  pub source_revision : String
  pub absorbing : VehicleRow
  pub reroute : OrderRow
  pub pickup : OrderRow

-- `cases <= headroom`, where the headroom is the capacity less the load and may be negative.
unfoldable pub has_headroom : ℕ → VehicleRow → Bool
has_headroom cases v = leb (v.current_load_cases + cases) v.max_capacity_cases

unfoldable pub choose_repair : Database → String → String → String → Result RepairChoice
unfolding active_revisions stranded_orders other_fleet found single_revision has_headroom
choose_repair db tenant_id plan_id vehicle_id = do
  source_revision ← single_revision (active_revisions db tenant_id plan_id)
  let pending =
      select (λ o. not (o.status == "DELIVERED"))
        (stranded_orders db tenant_id plan_id source_revision vehicle_id)
  raise_if (ltb (length pending) 2) (http_error 409 "NO_FEASIBLE_REPAIR_FROM_AUTHORITATIVE_STATE")
  absorbing ←
      found "NO_FEASIBLE_REPAIR_FROM_AUTHORITATIVE_STATE"
        (first (other_fleet db tenant_id vehicle_id))
  reroute ←
      found "NO_OPERATIONAL_VEHICLE_HAS_HEADROOM"
        (first (select (λ o. has_headroom o.cases absorbing) pending))
  pickup ←
      found "NO_SECOND_COMMITMENT_TO_ROUTE_TO_A_PARTNER"
        (first (select (λ o. not (o.order_id == reroute.order_id)) pending))
  ok (record {
    source_revision = source_revision;
    absorbing = absorbing;
    reroute = reroute;
    pickup = pickup;
  })

-- `CANONICAL_APPROVAL_PROPOSED_REVISION`
abbrev pub proposed_revision : String
proposed_revision = "rev08"

module _ (x : Environment) where
  unfoldable pub repair_proposal_id : String → String → String → String → String
  repair_proposal_id tenant_id plan_id source_revision source_event_id = concat (
      "PROP-"
      ∷ x.upper (
          x.prefix 24 (
            x.sha256_hex (
              concat (
                tenant_id ∷ "\0" ∷ plan_id ∷ "\0" ∷ source_revision ∷ "\0" ∷ source_event_id
                ∷ []))))
      ∷ [])

  -- The payload of PERSIST_REPAIR_PROPOSAL.
  unfoldable pub repair_payload :
      String → String → String → String → RepairChoice → PersistRepairProposalPayload
  unfolding repair_proposal_id
  repair_payload tenant_id plan_id vehicle_id source_event_id c = record {
    proposal_id = repair_proposal_id tenant_id plan_id c.source_revision source_event_id;
    source_event_id = source_event_id;
    plan_id = plan_id;
    source_revision = c.source_revision;
    proposed_revision = proposed_revision;
    vehicle_id = vehicle_id;
    absorbing_vehicle_capacity_cases = c.absorbing.max_capacity_cases;
    absorbing_vehicle_committed_cases = c.absorbing.current_load_cases;
    plan_diff = record {
      reroute_order_id = c.reroute.order_id;
      reroute_cases = c.reroute.cases;
      reroute_target_vehicle = c.absorbing.vehicle_id;
      pickup_order_id = c.pickup.order_id;
      pickup_cases = c.pickup.cases;
    };
  }

  -- The run of the fleet in between is a parameter: it answers whether the proposal stands.
  unfoldable pub derive_repair_proposal :
      (RepairChoice → Result (Unit {0}))
      → Database
      → String
      → String
      → String
      → String
      → Result PersistRepairProposalPayload
  unfolding choose_repair repair_payload
  derive_repair_proposal run_fleet db tenant_id operating_day vehicle_id source_event_id = do
    choice ← choose_repair db tenant_id (concat ("PLAN-" ∷ operating_day ∷ [])) vehicle_id
    run_fleet choice
    ok (
        repair_payload tenant_id (concat ("PLAN-" ∷ operating_day ∷ [])) vehicle_id source_event_id
          choice)
