-- ===== src/Planning/Candidates/Loads.antt =====
-- No vehicle of the schedule is loaded beyond its capacity, and its stops are numbered in order.
use full_shelf.Prelude.{
  ℕ, suc, ◌+◌, ◌-◌, ◌<◌, ◌≡◌, refl, String, Bool, true, false, Option, none, some, List, [], ◌∷◌,
  ◌++◌, map, sum_by-append, All, Bool-cases, inl, inr, ◌⊎◌, arith, leb, nat_eq, length,
}
use full_shelf.Ledger.Rows.{RecoveryShortfallRow, VehicleRow}
use full_shelf.Ledger.Payloads.{NextDayCandidateStopPayload}
use full_shelf.Ledger.Validators.{stop_cases, is_contiguous}
use full_shelf.Planning.Candidates.{
  WorkVehicle, Schedule, work_vehicle, candidate_order_id, choose_lot, choose_vehicle, load_first,
  add_stop, make_stop, place, assign, assign_all,
}

-- `all stops are of this vehicle, under the identifier of their shortfall`
abbrev pub IsOwn : String → String → NextDayCandidateStopPayload → Type 0
IsOwn plan_id vehicle_id s =
    (s.vehicle_id ≡ vehicle_id) × (s.order_id ≡ candidate_order_id plan_id s.shortfall_id)

pub record IsLoaded (plan_id : String) (v : WorkVehicle) : Type 0 where
  pub balanced : stop_cases v.stops + v.remaining ≡ v.capacity_cases - v.committed_load_cases
  pub positive : (length v.stops ≡ 0) ⊎ (0 < stop_cases v.stops)
  pub contiguous : is_contiguous 1 v.stops ≡ true
  pub own : All (IsOwn plan_id v.vehicle_id) v.stops

is_contiguous-append :
    (n : ℕ) (stops : List NextDayCandidateStopPayload) (s : NextDayCandidateStopPayload)
    → is_contiguous n stops ≡ true
    → s.sequence ≡ length stops + n
    → is_contiguous n (stops ++ (s ∷ [])) ≡ true
unfolding is_contiguous
is_contiguous-append n [] s h e = ground arith
is_contiguous-append n (a ∷ stops) s h e = ground (arith, is_contiguous-append (suc n) stops s)

All-append {ℓ κ} :
    {A : Type ℓ} (P : A → Type κ) (xs : List A) (x : A) → All P xs → P x → All P (xs ++ (x ∷ []))
All-append P [] x h p = (p, tt)
All-append P (y ∷ ys) x h p = (h.0, All-append P ys x (h.1) p)

All-load_first {ℓ κ} :
    {A : Type ℓ} (P : A → Type κ) (p : A → Bool) (f : A → A) (xs : List A)
    → ((a : A) → p a ≡ true → P a → P (f a))
    → All P xs
    → All P (load_first p f xs)
unfolding load_first
All-load_first P p f [] keep h = tt
All-load_first P p f (a ∷ xs) keep h = elim (Bool-cases (p a)) [
  | inl hit ↦ rw hit (keep a hit (h.0), h.1)
  | inr miss ↦ rw miss (h.0, All-load_first P p f xs keep (h.1))
]

module _ (plan_id : String) (agency_names : String → Option String) where
  add_stop-IsLoaded :
      (item : RecoveryShortfallRow) (lot_id : String) (v : WorkVehicle)
      → nat_eq item.cases 0 ≡ false
      → leb item.cases v.remaining ≡ true
      → IsLoaded plan_id v
      → IsLoaded plan_id (add_stop plan_id agency_names item lot_id v)
  unfolding add_stop make_stop
  add_stop-IsLoaded item lot_id v some_ fits loaded =
      let s = make_stop plan_id agency_names item lot_id v in
      let sum = sum_by-append (λ s. s.cases) v.stops (s ∷ []) in
      record {
        balanced = ground (arith, sum, loaded.balanced);
        positive = inr (ground (arith, sum));
        contiguous = is_contiguous-append 1 v.stops s loaded.contiguous refl;
        own = All-append (IsOwn plan_id v.vehicle_id) v.stops s loaded.own (refl, refl);
      }

  place-IsLoaded :
      (item : RecoveryShortfallRow) (s : Schedule) (lot : Option (String × ℕ))
      (vehicle : Option WorkVehicle)
      → All (IsLoaded plan_id) s.vehicles
      → All (IsLoaded plan_id) (place plan_id agency_names item s lot vehicle).vehicles
  unfolding place
  place-IsLoaded item s none vehicle h = h
  place-IsLoaded item s (some lot) none h = h
  place-IsLoaded item s (some lot) (some vehicle) h = elim (Bool-cases (nat_eq item.cases 0)) [
    | inl nothing ↦ rw nothing h
    | inr some_ ↦ rw some_ (
        All-load_first (IsLoaded plan_id) (λ v. leb item.cases v.remaining)
          (add_stop plan_id agency_names item lot.0) s.vehicles
          (λ v fits. add_stop-IsLoaded item lot.0 v some_ fits) h)
  ]

  pub assign_all-IsLoaded :
      (s : Schedule) (demand : List RecoveryShortfallRow)
      → All (IsLoaded plan_id) s.vehicles
      → All (IsLoaded plan_id) (assign_all plan_id agency_names s demand).vehicles
  unfolding assign_all assign
  assign_all-IsLoaded s [] h = h
  assign_all-IsLoaded s (item ∷ demand) h =
      assign_all-IsLoaded (assign plan_id agency_names s item) demand (
        place-IsLoaded item s (choose_lot item.cases s.available)
          (choose_vehicle item.cases s.vehicles) h)

-- At the start no vehicle has a stop.
pub initial-IsLoaded :
    (plan_id : String) (fleet : List VehicleRow) → All (IsLoaded plan_id) (map work_vehicle fleet)
unfolding work_vehicle is_contiguous
initial-IsLoaded plan_id [] = tt
initial-IsLoaded plan_id (r ∷ fleet) = (
  record { balanced = omega arith; positive = inl refl; contiguous = refl; own = tt },
  initial-IsLoaded plan_id fleet,
)
