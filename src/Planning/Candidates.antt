-- ===== src/Planning/Candidates.antt =====
-- apps/orchestrator/src/main.py, `_candidate_assignments`: a schedule for tomorrow's open shortfalls.
pub mod Totals
pub mod Loads
pub mod Checked
pub mod Accepted
pub mod Stock
use full_shelf.Prelude.{
  ℕ, suc, ◌+◌, ◌-◌, String, Bool, true, false, ◌&&◌, ◌||◌, not, ◌==◌, Option, none, some, List, [],
  ◌∷◌, ◌++◌, map, select, first, update_where, leb, ltb, nat_eq, is_none, or_else, concat, sum_by,
  length, if◌then◌else◌,
}
use full_shelf.Prelude.Sorting.{sort_by, ltb_text}
use full_shelf.Ledger.Rows.{LotRow, RecoveryShortfallRow, VehicleRow}
use full_shelf.Ledger.Payloads.{
  NextDayCandidateStopPayload, NextDayCandidateVehiclePayload, NextDayUnassignedDemandPayload,
}

-- A vehicle with the stops it has got. A load above the capacity leaves nothing, as in the source,
-- where what remains is then negative: it takes no positive number of cases.
pub record WorkVehicle : Type 0 where
  pub vehicle_id : String
  pub capacity_cases : ℕ
  pub committed_load_cases : ℕ
  pub remaining : ℕ
  pub stops : List NextDayCandidateStopPayload

-- What the loop over the demand carries. `available` has one entry for each lot.
pub record Schedule : Type 0 where
  pub available : List (String × ℕ)
  pub vehicles : List WorkVehicle
  pub unassigned : List NextDayUnassignedDemandPayload

-- `key=lambda d: (-d["cases"], d["agency_id"])`
unfoldable pub larger_first : RecoveryShortfallRow → RecoveryShortfallRow → Bool
larger_first a b = ltb b.cases a.cases || nat_eq a.cases b.cases && ltb_text a.agency_id b.agency_id

unfoldable pub lot_first : String × ℕ → String × ℕ → Bool
lot_first a b = ltb_text a.0 b.0

unfoldable pub vehicle_first : VehicleRow → VehicleRow → Bool
vehicle_first a b = ltb_text a.vehicle_id b.vehicle_id

unfoldable pub sort_demand : List RecoveryShortfallRow → List RecoveryShortfallRow
unfolding larger_first
sort_demand = sort_by larger_first

unfoldable pub work_vehicle : VehicleRow → WorkVehicle
work_vehicle r = record {
  vehicle_id = r.vehicle_id;
  capacity_cases = r.max_capacity_cases;
  committed_load_cases = r.current_load_cases;
  remaining = r.max_capacity_cases - r.current_load_cases;
  stops = [];
}

-- `next((l for l in sorted(available) if available[l] >= cases), None)`
unfoldable pub choose_lot : ℕ → List (String × ℕ) → Option (String × ℕ)
unfolding lot_first
choose_lot cases available = first (select (λ l. leb cases l.1) (sort_by lot_first available))

unfoldable pub choose_vehicle : ℕ → List WorkVehicle → Option WorkVehicle
choose_vehicle cases vehicles = first (select (λ v. leb cases v.remaining) vehicles)

-- `available[lot_id] -= cases`
unfoldable pub draw_lot : String → ℕ → List (String × ℕ) → List (String × ℕ)
draw_lot lot_id cases = update_where (λ l. l.0 == lot_id) (λ l. (l.0, l.1 - cases))

-- The first vehicle that the test passes, which is the one chosen, is changed in place.
unfoldable pub load_first {ℓ} : {A : Type ℓ} → (A → Bool) → (A → A) → List A → List A
load_first p f [] = []
load_first p f (v ∷ vehicles) = if p v then f v ∷ vehicles else v ∷ load_first p f vehicles

unfoldable pub candidate_order_id : String → String → String
candidate_order_id plan_id shortfall_id = concat ("CAND-" ∷ plan_id ∷ "-" ∷ shortfall_id ∷ [])

unfoldable pub unassign :
    RecoveryShortfallRow → Option (String × ℕ) → NextDayUnassignedDemandPayload
unassign item lot = record {
  shortfall_id = item.shortfall_id;
  agency_id = item.agency_id;
  cases = item.cases;
  reason =
      if is_none lot
      then "NO_CONFIRMED_SAFE_LOT_WITH_SUFFICIENT_CASES"
      else "NO_REMAINING_TRANSPORT_CAPACITY";
}

-- The lots, the vehicles by identifier, and nothing assigned.
unfoldable pub initial_schedule : List LotRow → List VehicleRow → Schedule
unfolding work_vehicle vehicle_first
initial_schedule safe_lots fleet = record {
  available = map (λ l. (l.lot_id, l.total_cases)) safe_lots;
  vehicles = map work_vehicle (sort_by vehicle_first fleet);
  unassigned = [];
}

unfoldable pub has_stops : WorkVehicle → Bool
has_stops v = not (nat_eq (length v.stops) 0)

unfoldable pub candidate_vehicle : WorkVehicle → NextDayCandidateVehiclePayload
candidate_vehicle v = record {
  vehicle_id = v.vehicle_id;
  capacity_cases = v.capacity_cases;
  committed_load_cases = v.committed_load_cases;
  candidate_load_cases = sum_by (λ s. s.cases) v.stops;
  stops = v.stops;
}

module _ (plan_id : String) (agency_names : String → Option String) where
  unfoldable pub make_stop :
      RecoveryShortfallRow → String → WorkVehicle → NextDayCandidateStopPayload
  unfolding candidate_order_id
  make_stop item lot_id v = record {
    order_id = candidate_order_id plan_id item.shortfall_id;
    agency_id = item.agency_id;
    agency_name = or_else (agency_names item.agency_id) item.agency_id;
    cases = item.cases;
    lot_id = lot_id;
    vehicle_id = v.vehicle_id;
    sequence = length v.stops + 1;
    shortfall_id = item.shortfall_id;
    status = "CANDIDATE";
  }

  unfoldable pub add_stop : RecoveryShortfallRow → String → WorkVehicle → WorkVehicle
  unfolding make_stop
  add_stop item lot_id v = record v {
    remaining = v.remaining - item.cases;
    stops = v.stops ++ (make_stop item lot_id v ∷ []);
  }

  -- What one item of the demand makes of the schedule, with the lot and the vehicle found for it.
  unfoldable pub place :
      RecoveryShortfallRow → Schedule → Option (String × ℕ) → Option WorkVehicle → Schedule
  unfolding unassign draw_lot load_first add_stop
  place item s (some lot) (some vehicle) =
      if nat_eq item.cases 0
      then record s { unassigned = s.unassigned ++ (unassign item (some lot) ∷ []) }
      else record s {
        available = draw_lot lot.0 item.cases s.available;
        vehicles = load_first (λ v. leb item.cases v.remaining) (add_stop item lot.0) s.vehicles;
      }
  place item s lot vehicle = record s { unassigned = s.unassigned ++ (unassign item lot ∷ []) }

  unfoldable pub assign : Schedule → RecoveryShortfallRow → Schedule
  unfolding place choose_lot choose_vehicle
  assign s item =
      place item s (choose_lot item.cases s.available) (choose_vehicle item.cases s.vehicles)

  unfoldable pub assign_all : Schedule → List RecoveryShortfallRow → Schedule
  unfolding assign
  assign_all s [] = s
  assign_all s (item ∷ demand) = assign_all (assign s item) demand

  -- `_candidate_assignments`: the vehicles that carry candidate work, and the demand left.
  unfoldable pub candidate_assignments :
      List RecoveryShortfallRow
      → List LotRow
      → List VehicleRow
      → List NextDayCandidateVehiclePayload × List NextDayUnassignedDemandPayload
  unfolding assign_all initial_schedule sort_demand has_stops candidate_vehicle
  candidate_assignments shortfalls safe_lots fleet =
      let s = assign_all (initial_schedule safe_lots fleet) (sort_demand shortfalls) in
      (map candidate_vehicle (select has_stops s.vehicles), s.unassigned)
