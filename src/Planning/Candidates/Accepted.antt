-- ===== src/Planning/Candidates/Accepted.antt =====
-- A schedule that the planner derives passes the validator of the command that carries it.
use full_shelf.Prelude.{
  ℕ, ◌+◌, ◌≤◌, ◌≡◌, refl, String, true, ◌==◌, Option, List, [], ◌∷◌, map, sum_by, All, distinct,
  inl, inr, arith, if◌then◌else◌,
}
use full_shelf.Prelude.Errors.{ok}
use full_shelf.Prelude.Sorting.{sort_by}
use full_shelf.Ledger.Rows.{LotRow, RecoveryShortfallRow, VehicleRow}
use full_shelf.Ledger.Payloads.{CreateNextDayDraftPayload}
use full_shelf.Ledger.Validators.{validate_next_day}
use full_shelf.Planning.Candidates.{
  vehicle_first, WorkVehicle, sort_demand, assign_all, initial_schedule, candidate_assignments,
}
use full_shelf.Planning.Candidates.Totals.{total, planned-total, candidate_assignments-conserves}
use full_shelf.Planning.Candidates.Loads.{IsLoaded, assign_all-IsLoaded, initial-IsLoaded}
use full_shelf.Planning.Candidates.Checked.{
  mentions, order_count, shortfall_count, distinct-mentions, total-order_count, total-order_cases,
  check_vehicles-ok, unassigned_ok,
}

new_orders :
    (plan_id : String) (o : String) (vehicles : List WorkVehicle) (others : String → ℕ)
    → All (IsLoaded plan_id) vehicles
    → ((k : String) → total (shortfall_count k) vehicles + others k ≤ 1)
    → mentions o [] + total (order_count o) vehicles ≤ 1
new_orders plan_id o vehicles others loaded once =
    elim (total-order_cases plan_id o vehicles loaded) [
      | inl none_ ↦ omega (arith, none_)
      | inr (k, e) ↦ rw e (omega (arith, total-order_count plan_id k vehicles loaded, once k))
    ]

count-map :
    (k : String) (rows : List RecoveryShortfallRow)
    → sum_by (λ r. if r.shortfall_id == k then 1 else 0) rows
      ≡ mentions k (map (λ r. r.shortfall_id) rows)
count-map k [] = refl
count-map k (r ∷ rows) = omega (arith, count-map k rows)

-- The draft that carries the derived schedule of shortfalls with different identifiers passes the
-- validator of the ledger command: loads match the stops and fit the vehicles, stops are numbered in
-- order, no order identifier repeats, and no shortfall is both scheduled and unassigned.
pub candidate_assignments-validate_next_day :
    (plan_id : String) (agency_names : String → Option String)
    (shortfalls : List RecoveryShortfallRow) (safe_lots : List LotRow) (fleet : List VehicleRow)
    (p : CreateNextDayDraftPayload)
    → distinct (map (λ r. r.shortfall_id) shortfalls) ≡ true
    → let c = candidate_assignments plan_id agency_names shortfalls safe_lots fleet in
      validate_next_day (record p { candidate_vehicles = c.0; unassigned_demand = c.1 }) ≡ ok tt
unfolding validate_next_day candidate_assignments
candidate_assignments-validate_next_day plan_id agency_names shortfalls safe_lots fleet p apart =
    let t =
      assign_all plan_id agency_names (initial_schedule safe_lots fleet) (sort_demand shortfalls) in
    let loaded =
      assign_all-IsLoaded plan_id agency_names (initial_schedule safe_lots fleet)
        (sort_demand shortfalls) (initial-IsLoaded plan_id (sort_by vehicle_first fleet)) in
    let once : (k : String)
        → total (shortfall_count k) t.vehicles
            + sum_by (λ u. if u.shortfall_id == k then 1 else 0) t.unassigned
          ≤ 1 =
      λ k. omega (
        arith,
        (candidate_assignments-conserves plan_id agency_names shortfalls safe_lots fleet k).1,
        planned-total (shortfall_count k) t.vehicles,
        count-map k shortfalls,
        distinct-mentions k (map (λ r. r.shortfall_id) shortfalls) apart,
      ) in
    let done =
      check_vehicles-ok plan_id t.vehicles ([], []) loaded
        (λ o.
          new_orders plan_id o t.vehicles
            (λ k. sum_by (λ u. if u.shortfall_id == k then 1 else 0) t.unassigned) loaded once) in
    rw
      (
        done.1,
        unassigned_ok plan_id (λ k. total (shortfall_count k) t.vehicles) (done.0).1 t.unassigned
            (λ k. omega (arith, done.2 k)) once,
      )
      refl
