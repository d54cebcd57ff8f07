-- ===== src/Policy/Capacity.antt =====
-- packages/domain/full_shelf_domain/capacity.py
pub mod Bounds
use full_shelf.Prelude.{String, Bool, true, false, List, [], ◌∷◌, if◌then◌else◌}
use full_shelf.Prelude.Int.{ℤ, pos, ◌+ℤ◌, ltb_ℤ}
use full_shelf.Policy.Models.{Vehicle, Order}

-- The result without its human-readable `reason`.
pub record CapacityCheckResult : Type 0 where
  pub is_feasible : Bool
  pub vehicle_id : String
  pub existing_load : ℤ
  pub proposed_load : ℤ
  pub capacity_limit : ℤ

-- `sum(o.cases for o in orders)`
unfoldable pub total_cases : List Order → ℤ
total_cases [] = pos 0
total_cases (o ∷ orders) = o.cases +ℤ total_cases orders

unfoldable pub check_vehicle_capacity : Vehicle → List Order → List Order → CapacityCheckResult
check_vehicle_capacity vehicle existing_orders proposed_orders =
    let existing_sum = total_cases existing_orders in
    let total_load = existing_sum +ℤ total_cases proposed_orders in
    if ltb_ℤ vehicle.max_capacity_cases total_load
    then record {
      is_feasible = false;
      vehicle_id = vehicle.vehicle_id;
      existing_load = existing_sum;
      proposed_load = total_load;
      capacity_limit = vehicle.max_capacity_cases;
    }
    else record {
      is_feasible = true;
      vehicle_id = vehicle.vehicle_id;
      existing_load = existing_sum;
      proposed_load = total_load;
      capacity_limit = vehicle.max_capacity_cases;
    }
