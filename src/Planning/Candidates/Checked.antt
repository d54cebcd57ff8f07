-- ===== src/Planning/Candidates/Checked.antt =====
-- The tests of the draft validator on the vehicles that the planner loaded.
use full_shelf.Prelude.{
  ℕ, ◌+◌, ◌≤◌, ◌≡◌, refl, sym, ◌∙◌, String, true, false, not, ◌==◌, eq_iff, eq_refl, List, [], ◌∷◌,
  map, select, sum_by, All, any, contains, distinct, Bool-cases, inl, inr, ◌⊎◌, arith,
  if◌then◌else◌, nat_eq, ltb, length,
}
use full_shelf.Prelude.Errors.{ok}
use full_shelf.Ledger.Payloads.{
  NextDayCandidateStopPayload, NextDayCandidateVehiclePayload, NextDayUnassignedDemandPayload,
}
use full_shelf.Ledger.Validators.{Seen, stop_cases, check_stops, check_vehicles}
use full_shelf.Planning.Candidates.{WorkVehicle, candidate_order_id, has_stops, candidate_vehicle}
use full_shelf.Planning.Candidates.Totals.{sum_by-nil, total}
use full_shelf.Planning.Candidates.Loads.{IsOwn, IsLoaded}
use text.Mathlib.TextLemmas.{append_cancel_left, append_cancel_right}

-- How often a list names a text.
abbrev pub mentions : String → List String → ℕ
mentions k = sum_by (λ a. if a == k then 1 else 0)

abbrev pub order_count : String → NextDayCandidateStopPayload → ℕ
order_count o s = if s.order_id == o then 1 else 0

abbrev pub shortfall_count : String → NextDayCandidateStopPayload → ℕ
shortfall_count k s = if s.shortfall_id == k then 1 else 0

mentions-contains : (k : String) (xs : List String) → mentions k xs ≡ 0 → contains k xs ≡ false
mentions-contains k [] h = refl
mentions-contains k (a ∷ xs) h = ground (arith, mentions-contains k xs, eq_iff a k, eq_iff k a)

contains-mentions : (k : String) (xs : List String) → contains k xs ≡ false → mentions k xs ≡ 0
contains-mentions k [] h = refl
contains-mentions k (a ∷ xs) h = ground (arith, contains-mentions k xs, eq_iff a k, eq_iff k a)

pub distinct-mentions : (k : String) (xs : List String) → distinct xs ≡ true → mentions k xs ≤ 1
distinct-mentions k [] h = omega arith
distinct-mentions k (a ∷ xs) h =
    ground (arith, distinct-mentions k xs, contains-mentions a xs, eq_iff a k)

candidate_order_id-injective :
    (plan_id a b : String) → candidate_order_id plan_id a ≡ candidate_order_id plan_id b → a ≡ b
unfolding candidate_order_id
candidate_order_id-injective plan_id a b h =
    append_cancel_right a b "" (
      append_cancel_left "-" _ _
        (append_cancel_left plan_id _ _ (append_cancel_left "CAND-" _ _ h)))

candidate_order_id-== :
    (plan_id a b : String)
    → (candidate_order_id plan_id a == candidate_order_id plan_id b) ≡ (a == b)
candidate_order_id-== plan_id a b = elim (Bool-cases (a == b)) [
  | inl same ↦ rw ((eq_iff a b).0 same, eq_refl b) (eq_refl (candidate_order_id plan_id b))
  | inr other ↦ elim (Bool-cases (candidate_order_id plan_id a == candidate_order_id plan_id b)) [
    | inr apart ↦ rw (other, apart) refl
    | inl clash ↦ absurd (
        ground
          (arith, (eq_iff a b).1 (candidate_order_id-injective plan_id a b ((eq_iff _ _).0 clash))))
  ]
]

module _ (plan_id vehicle_id : String) where
  order_count-own :
      (k : String) (stops : List NextDayCandidateStopPayload)
      → All (IsOwn plan_id vehicle_id) stops
      → sum_by (order_count (candidate_order_id plan_id k)) stops ≡ sum_by (shortfall_count k) stops
  order_count-own k [] own = refl
  order_count-own k (s ∷ stops) (here, own) =
      rw (here.1, candidate_order_id-== plan_id s.shortfall_id k, order_count-own k stops own) refl

  order_count-cases :
      (o : String) (stops : List NextDayCandidateStopPayload)
      → All (IsOwn plan_id vehicle_id) stops
      → (sum_by (order_count o) stops ≡ 0) ⊎ ((k : String) × (o ≡ candidate_order_id plan_id k))
  order_count-cases o [] own = inl refl
  order_count-cases o (s ∷ stops) (here, own) = elim (Bool-cases (s.order_id == o)) [
    | inl hit ↦ inr (s.shortfall_id, sym ((eq_iff s.order_id o).0 hit) ∙ here.1)
    | inr miss ↦ elim (order_count-cases o stops own) [
      | inl none_ ↦ inl (rw miss (omega (arith, none_)))
      | inr found ↦ inr found
    ]
  ]

  -- Stops of one vehicle whose orders are new: they pass, and are seen.
  check_stops-ok :
      (stops : List NextDayCandidateStopPayload) (seen : Seen)
      → All (IsOwn plan_id vehicle_id) stops
      → ((o : String) → mentions o seen.0 + sum_by (order_count o) stops ≤ 1)
      → (seen' : Seen) × (check_stops vehicle_id stops seen ≡ ok seen')
        × ((o : String) → mentions o seen'.0 ≡ mentions o seen.0 + sum_by (order_count o) stops)
        × ((k : String) → mentions k seen'.1 ≡ mentions k seen.1 + sum_by (shortfall_count k) stops)
  unfolding check_stops
  check_stops-ok [] seen own new = (seen, refl, λ o. omega arith, λ k. omega arith)
  check_stops-ok (s ∷ stops) (orders, shortfalls) (here, own) new =
      let rest =
        check_stops-ok stops (s.order_id ∷ orders, s.shortfall_id ∷ shortfalls) own
          (λ o. omega (arith, new o)) in
      let once = rw (eq_refl s.order_id) at (new s.order_id) in
      let unseen : contains s.order_id orders ≡ false =
        mentions-contains s.order_id orders (omega (arith, once)) in
      let own_stop : (s.vehicle_id == vehicle_id) ≡ true =
        (eq_iff s.vehicle_id vehicle_id).1 (here.0) in
      (
        rest.0,
        rw (own_stop, unseen) (rest.1),
        λ o. omega (arith, rest.2 o),
        λ k. omega (arith, rest.3 k),
      )

abbrev planned : List WorkVehicle → List NextDayCandidateVehiclePayload
planned vehicles = map candidate_vehicle (select has_stops vehicles)

module _ (plan_id : String) where
  -- One order identifier stands for one shortfall on all the vehicles.
  pub total-order_count :
      (k : String) (vehicles : List WorkVehicle)
      → All (IsLoaded plan_id) vehicles
      → total (order_count (candidate_order_id plan_id k)) vehicles
        ≡ total (shortfall_count k) vehicles
  total-order_count k [] h = refl
  total-order_count k (v ∷ vehicles) (here, rest) =
      rw
        (order_count-own plan_id v.vehicle_id k v.stops here.own, total-order_count k vehicles rest)
        refl

  pub total-order_cases :
      (o : String) (vehicles : List WorkVehicle)
      → All (IsLoaded plan_id) vehicles
      → (total (order_count o) vehicles ≡ 0) ⊎ ((k : String) × (o ≡ candidate_order_id plan_id k))
  total-order_cases o [] h = inl refl
  total-order_cases o (v ∷ vehicles) (here, rest) =
      elim (order_count-cases plan_id v.vehicle_id o v.stops here.own) [
        | inr found ↦ inr found
        | inl none_ ↦ elim (total-order_cases o vehicles rest) [
          | inr found ↦ inr found
          | inl nones ↦ inl (omega (arith, none_, nones))
        ]
      ]

  idle_stops : (v : WorkVehicle) → has_stops v ≡ false → not (nat_eq (length v.stops) 0) ≡ false
  unfolding has_stops
  idle_stops v idle = idle

  -- The arithmetic of one vehicle that has stops.
  vehicle_passes :
      (v : WorkVehicle) (later : List NextDayCandidateVehiclePayload) (seen : Seen) {seen' : Seen}
      → IsLoaded plan_id v
      → has_stops v ≡ true
      → check_stops v.vehicle_id v.stops seen ≡ ok seen'
      → check_vehicles (candidate_vehicle v ∷ later) seen ≡ check_vehicles later seen'
  unfolding check_vehicles candidate_vehicle has_stops
  vehicle_passes v later seen loaded used e =
      let summed : nat_eq (stop_cases v.stops) (stop_cases v.stops) ≡ true = ground arith in
      let fits : ltb v.capacity_cases (v.committed_load_cases + stop_cases v.stops) ≡ false =
        ground (arith, loaded.balanced, loaded.positive) in
      rw (summed, fits, loaded.contiguous, e) refl

  -- Vehicles that are loaded within their capacity, with orders that are new, pass.
  pub check_vehicles-ok :
      (vehicles : List WorkVehicle) (seen : Seen)
      → All (IsLoaded plan_id) vehicles
      → ((o : String) → mentions o seen.0 + total (order_count o) vehicles ≤ 1)
      → (seen' : Seen) × (check_vehicles (planned vehicles) seen ≡ ok seen')
        × ((k : String)
            → mentions k seen'.1 ≡ mentions k seen.1 + total (shortfall_count k) vehicles)
  unfolding check_vehicles
  check_vehicles-ok [] seen h new = (seen, refl, λ k. omega arith)
  check_vehicles-ok (v ∷ vehicles) seen (here, rest) new = elim (Bool-cases (has_stops v)) [
    | inr idle ↦
        let rest_ok = check_vehicles-ok vehicles seen rest (λ o. omega (arith, new o)) in
        (
          rest_ok.0,
          rw idle (rest_ok.1),
          λ k.
              omega
                (arith, rest_ok.2 k, sum_by-nil (shortfall_count k) v.stops (idle_stops v idle)),
        )
    | inl used ↦
        let stops_ok =
          check_stops-ok plan_id v.vehicle_id v.stops seen here.own (λ o. omega (arith, new o)) in
        let rest_ok =
          check_vehicles-ok vehicles (stops_ok.0) rest (λ o. omega (arith, new o, stops_ok.2 o)) in
        (
          rest_ok.0,
          rw used (vehicle_passes v (planned vehicles) seen here used (stops_ok.1) ∙ rest_ok.1),
          λ k. omega (arith, stops_ok.3 k, rest_ok.2 k),
        )
  ]

  pub unassigned_ok :
      (planned_count : String → ℕ) (shortfalls : List String)
      (us : List NextDayUnassignedDemandPayload)
      → ((k : String) → mentions k shortfalls ≡ planned_count k)
      → ((k : String) → planned_count k + sum_by (λ u. if u.shortfall_id == k then 1 else 0) us ≤ 1)
      → any (λ (d : NextDayUnassignedDemandPayload). contains d.shortfall_id shortfalls) us ≡ false
  unassigned_ok planned_count shortfalls [] h once = refl
  unassigned_ok planned_count shortfalls (u ∷ us) h once =
      let here = rw (eq_refl u.shortfall_id) at (once u.shortfall_id) in
      let absent =
        mentions-contains u.shortfall_id shortfalls (omega (arith, here, h u.shortfall_id)) in
      rw absent (unassigned_ok planned_count shortfalls us h (λ k. omega (arith, once k)))
