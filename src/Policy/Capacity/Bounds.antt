-- ===== src/Policy/Capacity/Bounds.antt =====
-- The capacity rule of capacity.py against the sum over all the orders.
use full_shelf.Prelude.{true, ◌≡◌, ◌↔◌, List, [], ◌∷◌, ◌++◌, arith}
use full_shelf.Prelude.Int.{◌+ℤ◌, ◌≤ℤ◌, int_laws}
use full_shelf.Policy.Models.{Vehicle, Order}
use full_shelf.Policy.Capacity.{total_cases, check_vehicle_capacity}

total_cases-append :
    (xs ys : List Order) → total_cases (xs ++ ys) ≡ total_cases xs +ℤ total_cases ys
unfolding total_cases
total_cases-append [] ys = omega int_laws
total_cases-append (x ∷ xs) ys = rw (total_cases-append xs ys) (omega int_laws)

-- The check reports the cases of all the orders together as the proposed load, and the plan is
-- feasible exactly when that sum is at most the capacity of the vehicle.
pub check_vehicle_capacity_lem :
    (v : Vehicle) (existing proposed : List Order)
    → ((check_vehicle_capacity v existing proposed).proposed_load
        ≡ total_cases (existing ++ proposed))
      × (((check_vehicle_capacity v existing proposed).is_feasible ≡ true)
          ↔ (total_cases (existing ++ proposed) ≤ℤ v.max_capacity_cases))
unfolding check_vehicle_capacity
check_vehicle_capacity_lem v existing proposed =
    rw (total_cases-append existing proposed) (ground arith, ground arith)
