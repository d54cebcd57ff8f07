-- ===== src/Planning/Candidates/Totals.antt =====
-- Every item of the demand is scheduled or left unassigned, once and in full.
use full_shelf.Prelude.{
  ℕ, ◌+◌, ◌≡◌, refl, String, Bool, false, not, ◌==◌, Option, none, some, List, [], ◌∷◌, map, select,
  first, sum_by, sum_by-append, Bool-cases, inl, inr, arith, if◌then◌else◌, leb, nat_eq, length,
}
use full_shelf.Prelude.Sorting.{sum_by-sort_by, sort_by}
use full_shelf.Ledger.Rows.{LotRow, RecoveryShortfallRow, VehicleRow}
use full_shelf.Ledger.Payloads.{
  NextDayCandidateStopPayload, NextDayCandidateVehiclePayload, NextDayUnassignedDemandPayload,
}
use full_shelf.Planning.Candidates.{
  vehicle_first, WorkVehicle, Schedule, larger_first, sort_demand, work_vehicle, choose_lot,
  choose_vehicle, load_first, add_stop, make_stop, unassign, place, assign, assign_all,
  initial_schedule, has_stops, candidate_vehicle, candidate_assignments,
}

-- The sum of a measure over the stops of all vehicles.
abbrev pub total : (NextDayCandidateStopPayload → ℕ) → List WorkVehicle → ℕ
total f = sum_by (λ v. sum_by f v.stops)

abbrev pub total_planned :
    (NextDayCandidateStopPayload → ℕ) → List NextDayCandidateVehiclePayload → ℕ
total_planned f = sum_by (λ v. sum_by f v.stops)

pub initial-total :
    (f : NextDayCandidateStopPayload → ℕ) (fleet : List VehicleRow)
    → total f (map work_vehicle fleet) ≡ 0
unfolding work_vehicle
initial-total f [] = refl
initial-total f (r ∷ fleet) = omega (arith, initial-total f fleet)

pub sum_by-nil {ℓ} :
    {A : Type ℓ} (f : A → ℕ) (xs : List A) → not (nat_eq (length xs) 0) ≡ false → sum_by f xs ≡ 0
sum_by-nil f [] h = refl
sum_by-nil f (x ∷ xs) h = absurd (ground arith)

-- Only vehicles without stops are left out.
pub planned-total :
    (f : NextDayCandidateStopPayload → ℕ) (vehicles : List WorkVehicle)
    → total_planned f (map candidate_vehicle (select has_stops vehicles)) ≡ total f vehicles
unfolding has_stops candidate_vehicle
planned-total f [] = refl
planned-total f (v ∷ vehicles) = elim (Bool-cases (has_stops v)) [
  | inl used ↦ rw used (omega (arith, planned-total f vehicles))
  | inr idle ↦ rw idle (omega (arith, planned-total f vehicles, sum_by-nil f v.stops idle))
]

module _ (plan_id : String) (agency_names : String → Option String) where
  pub load_first-total :
      (f : NextDayCandidateStopPayload → ℕ) (item : RecoveryShortfallRow) (lot_id : String) (c : ℕ)
      (p : WorkVehicle → Bool) (vehicles : List WorkVehicle) {chosen : WorkVehicle}
      → ((v : WorkVehicle) → f (make_stop plan_id agency_names item lot_id v) ≡ c)
      → first (select p vehicles) ≡ some chosen
      → total f (load_first p (add_stop plan_id agency_names item lot_id) vehicles)
        ≡ total f vehicles + c
  unfolding load_first add_stop
  load_first-total f item lot_id c p [] same chosen = cc
  load_first-total f item lot_id c p (v ∷ vehicles) same chosen = elim (Bool-cases (p v)) [
    | inl fits ↦ rw fits (
        omega (
          arith,
          sum_by-append f v.stops (make_stop plan_id agency_names item lot_id v ∷ []),
          same v,
        ))
    | inr not_ ↦
        rw not_
          (omega (arith, load_first-total f item lot_id c p vehicles same (rw not_ at chosen)))
  ]

  module _ (f : NextDayCandidateStopPayload → ℕ) (g : NextDayUnassignedDemandPayload → ℕ)
      (h : RecoveryShortfallRow → ℕ)
      (stopped : (item : RecoveryShortfallRow) (lot_id : String) (v : WorkVehicle)
        → f (make_stop plan_id agency_names item lot_id v) ≡ h item)
      (unmet : (item : RecoveryShortfallRow) (lot : Option (String × ℕ))
        → g (unassign item lot) ≡ h item) where
    place-total :
        (item : RecoveryShortfallRow) (s : Schedule) (lot : Option (String × ℕ))
        (vehicle : Option WorkVehicle)
        → choose_vehicle item.cases s.vehicles ≡ vehicle
        → let t = place plan_id agency_names item s lot vehicle in
          total f t.vehicles + sum_by g t.unassigned
          ≡ total f s.vehicles + sum_by g s.unassigned + h item
    unfolding place choose_vehicle
    place-total item s none vehicle e =
        omega (arith, sum_by-append g s.unassigned (unassign item none ∷ []), unmet item none)
    place-total item s (some lot) none e =
        omega (
          arith,
          sum_by-append g s.unassigned (unassign item (some lot) ∷ []),
          unmet item (some lot),
        )
    place-total item s (some lot) (some vehicle) e = elim (Bool-cases (nat_eq item.cases 0)) [
      | inl nothing ↦ rw nothing (
          omega (
            arith,
            sum_by-append g s.unassigned (unassign item (some lot) ∷ []),
            unmet item (some lot),
          ))
      | inr some_ ↦ rw some_ (
          omega (
            arith,
            load_first-total f item lot.0 (h item) (λ v. leb item.cases v.remaining) s.vehicles
                (stopped item lot.0) e,
          ))
    ]

    assign_all-total :
        (s : Schedule) (demand : List RecoveryShortfallRow)
        → let t = assign_all plan_id agency_names s demand in
          total f t.vehicles + sum_by g t.unassigned
          ≡ total f s.vehicles + sum_by g s.unassigned + sum_by h demand
    unfolding assign_all assign
    assign_all-total s [] = omega arith
    assign_all-total s (item ∷ demand) = omega (
      arith,
      assign_all-total (assign plan_id agency_names s item) demand,
      place-total item s (choose_lot item.cases s.available) (choose_vehicle item.cases s.vehicles)
          refl,
    )

    pub candidate_assignments-total :
        (shortfalls : List RecoveryShortfallRow) (safe_lots : List LotRow) (fleet : List VehicleRow)
        → let c = candidate_assignments plan_id agency_names shortfalls safe_lots fleet in
          total_planned f c.0 + sum_by g c.1 ≡ sum_by h shortfalls
    unfolding candidate_assignments initial_schedule sort_demand
    candidate_assignments-total shortfalls safe_lots fleet =
        let s = initial_schedule safe_lots fleet in
        let t = assign_all plan_id agency_names s (sort_demand shortfalls) in
        omega (
          arith,
          planned-total f t.vehicles,
          assign_all-total s (sort_demand shortfalls),
          initial-total f (sort_by vehicle_first fleet),
          sum_by-sort_by larger_first h shortfalls,
        )

  -- Of every open shortfall, the scheduled and the unassigned cases add up to its cases, and the entries
  -- for it in the schedule and in the unassigned demand are as many as its rows.
  pub candidate_assignments-conserves :
      (shortfalls : List RecoveryShortfallRow) (safe_lots : List LotRow) (fleet : List VehicleRow)
      (k : String)
      → let c = candidate_assignments plan_id agency_names shortfalls safe_lots fleet in
        (total_planned (λ s. if s.shortfall_id == k then s.cases else 0) c.0
            + sum_by (λ u. if u.shortfall_id == k then u.cases else 0) c.1
          ≡ sum_by (λ r. if r.shortfall_id == k then r.cases else 0) shortfalls)
        × (total_planned (λ s. if s.shortfall_id == k then 1 else 0) c.0
              + sum_by (λ u. if u.shortfall_id == k then 1 else 0) c.1
            ≡ sum_by (λ r. if r.shortfall_id == k then 1 else 0) shortfalls)
  unfolding make_stop unassign
  candidate_assignments-conserves shortfalls safe_lots fleet k = (
    candidate_assignments-total (λ s. if s.shortfall_id == k then s.cases else 0)
        (λ u. if u.shortfall_id == k then u.cases else 0)
        (λ r. if r.shortfall_id == k then r.cases else 0) (λ _ _ _. refl) (λ _ _. refl) shortfalls
        safe_lots fleet,
    candidate_assignments-total (λ s. if s.shortfall_id == k then 1 else 0)
        (λ u. if u.shortfall_id == k then 1 else 0) (λ r. if r.shortfall_id == k then 1 else 0)
        (λ _ _ _. refl) (λ _ _. refl) shortfalls safe_lots fleet,
  )
