-- ===== src/Tests/Policies.antt =====
-- The policies at concrete incidents, vehicles, custody graphs and proposals.
use full_shelf.Prelude.{
  zero, suc, ◌+◌, true, false, ◌≡◌, ◌↔◌, refl, none, List, [], ◌∷◌, All, arith, if◌then◌else◌,
}
use full_shelf.Prelude.Int.{pos, ◌≤ℤ◌}
use full_shelf.Policy.Models.{detected, scoping, closed, Vehicle, Order, CustodyNode, CustodyEdge}
use full_shelf.Policy.Lifecycle.{can_transition, status_value, validate_transition}
use full_shelf.Policy.Lifecycle.Chains.{rank, here, next, Chain-rank}
use full_shelf.Policy.Lifecycle.Agreement.{answer, validate_transition_lem}
use full_shelf.Policy.Capacity.{total_cases, check_vehicle_capacity}
use full_shelf.Policy.Capacity.Bounds.{check_vehicle_capacity_lem}
use full_shelf.Policy.Reconciliation.{reconcile_recall_graph}
use full_shelf.Policy.Reconciliation.Totals.{
  IsConfirmed, on_hand, breakdown_total, contained_iff, breakdown_sums,
}
use full_shelf.Evidence.{
  PartnerCustodyProposal, Authority, normalize_proposal, verify_partner_custody_proposal, applied,
  denied,
}
use full_shelf.Evidence.Decision.{IsSupported, HasClaims, applied_iff, normalize-denied}
use full_shelf.Tests.Fixtures.{details, source_text, proposal}

detected-scoping : can_transition "FOOD_SAFETY_RECALL" detected scoping ≡ true
unfolding can_transition
detected-scoping = refl

Chain-rank_example : rank scoping ≡ rank detected + suc zero
Chain-rank_example = Chain-rank (next here detected-scoping)

validate_transition_lem_example :
    validate_transition (status_value detected) (status_value closed) true
    ≡ answer detected closed true
validate_transition_lem_example = validate_transition_lem detected closed true

abbrev truck : Vehicle
truck = record {
  vehicle_id = "VEH-1";
  name = "Truck one";
  max_capacity_cases = pos 60;
  current_load_cases = pos 20;
  is_operational = true;
}

abbrev drop : Order
drop = record {
  order_id = "ORD-1";
  destination_agency_id = "AG-1";
  cases = pos 30;
  lot_id = "LOT-1";
  assigned_vehicle_id = none;
}

check_vehicle_capacity_lem_example :
    ((check_vehicle_capacity truck (drop ∷ []) (drop ∷ [])).proposed_load
      ≡ total_cases (drop ∷ drop ∷ []))
    × (((check_vehicle_capacity truck (drop ∷ []) (drop ∷ [])).is_feasible ≡ true)
        ↔ (total_cases (drop ∷ drop ∷ []) ≤ℤ pos 60))
check_vehicle_capacity_lem_example = check_vehicle_capacity_lem truck (drop ∷ []) (drop ∷ [])

abbrev nodes : List CustodyNode
nodes =
    record { node_id = "NODE-0"; name = "Bank"; on_hand_cases = pos 28 }
    ∷ record { node_id = "NODE-1"; name = "Pantry"; on_hand_cases = pos 12 }
    ∷ []

abbrev edges : List CustodyEdge
edges =
    record {
      edge_id = "EDGE-1";
      source_node_id = "NODE-0";
      target_node_id = "NODE-1";
      lot_id = "LOT-1";
      case_count = pos 12;
      is_sub_distribution = true;
    }
    ∷ []

contained_iff_example :
    let r = reconcile_recall_graph nodes edges "LOT-1" ("NODE-1" ∷ []) in
    ((r.is_fully_contained ≡ true) ↔ All (IsConfirmed ("NODE-1" ∷ [])) edges)
    × (r.terminal_status ≡ (if r.is_fully_contained then "CONTAINED" else "PARTIALLY_CONTAINED"))
contained_iff_example = contained_iff nodes edges "LOT-1" ("NODE-1" ∷ []) (omega arith, tt)

breakdown_sums_example :
    let r = reconcile_recall_graph nodes edges "LOT-1" ("NODE-1" ∷ []) in
    (r.total_unique_physical_cases ≡ on_hand nodes)
    × (breakdown_total r.node_breakdown ≡ r.total_unique_physical_cases)
breakdown_sums_example = breakdown_sums nodes edges "LOT-1" ("NODE-1" ∷ []) refl

abbrev authority : Authority
authority = record {
  source_text = source_text;
  work_item_id = "WORK-1";
  details = details;
  incident_id = "INC-1";
  node_on_hand_cases = 12;
  node_name = "Pantry";
  incoming_edge_cases = 12;
}

applied_iff_example :
    ((verify_partner_custody_proposal proposal authority).decision ≡ applied)
    ↔ IsSupported proposal authority
applied_iff_example = applied_iff proposal authority

abbrev silent : PartnerCustodyProposal
silent = record proposal { lot = none }

abbrev abstaining : PartnerCustodyProposal
abstaining = record silent { abstain = true; requested_mutation = none }

normalize-denied_example :
    ((abstaining.abstain ≡ false) ↔ ((silent.abstain ≡ false) × HasClaims silent))
    × (abstaining.abstain ≡ true
        → (abstaining.requested_mutation ≡ none)
          × ((verify_partner_custody_proposal abstaining authority).decision ≡ denied))
unfolding normalize_proposal
normalize-denied_example = normalize-denied silent abstaining authority refl
