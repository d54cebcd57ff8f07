-- ===== src/Ledger/NextDay/Passed.antt =====
-- What the checks of a next-day draft establish of the values that they read.
use full_shelf.Prelude.{
  ℕ, ◌+◌, ◌≤◌, String, true, false, ◌&&◌, ◌≡◌, refl, sym, ◌∙◌, ap, ◌⊎◌, inl, inr, Option, none,
  some, List, [], ◌∷◌, ◌==◌, arith, and-true, some-injective, Bool-cases, Option-cases,
  if◌then◌else◌, eq_iff, sum_by, All, all, nat_eq, nat_eq→eq, leb→le, ltb, ltb-false→le, is_none,
  concat,
}
use full_shelf.Prelude.Errors.{
  ok, >>=-ok, ok-injective, guard_passed, raise_if_passed, guard-ok, raise_if-ok, err-ok,
}
use full_shelf.Ledger.Rows.{VehicleRow}
use full_shelf.Ledger.Database.{Database}
use full_shelf.Ledger.Payloads.{
  NextDayCandidateStopPayload, NextDayCandidateVehiclePayload, CreateNextDayDraftPayload,
}
use full_shelf.Ledger.NextDay.Checks.{
  draw, safe_cases, open_cases, operational, within, is_barred, check_stop, draw_stops,
  check_vehicle, draw_vehicles, check_candidates, check_candidates_of,
}

-- What a list of draws says of a lot.
look : String → List (String × ℕ) → Option ℕ
look k [] = none
look k ((j, m) ∷ drawn) = if j == k then some m else look k drawn

or_zero : Option ℕ → ℕ
or_zero none = 0
or_zero (some n) = n

-- The cases of a lot in a list of stops, and on all the vehicles.
abbrev pub cases_at : String → NextDayCandidateStopPayload → ℕ
cases_at k s = if s.lot_id == k then s.cases else 0

abbrev pub lot_cases : String → List NextDayCandidateVehiclePayload → ℕ
lot_cases k vehicles =
    sum_by (λ (v : NextDayCandidateVehiclePayload). sum_by (cases_at k) v.stops) vehicles

look-draw :
    (l k : String) (n : ℕ) (drawn : List (String × ℕ))
    → or_zero (look k (draw l n drawn)) ≡ or_zero (look k drawn) + (if l == k then n else 0)
unfolding look or_zero draw
look-draw l k n [] = ground arith
look-draw l k n ((j, m) ∷ drawn) =
    ground (arith, look-draw l k n drawn, eq_iff j l, eq_iff j k, eq_iff l k)

look-within :
    (k : String) (safe : String → Option ℕ) (drawn : List (String × ℕ))
    → all (λ (d : String × ℕ). within d.1 (safe d.0)) drawn ≡ true
    → (m : ℕ) → look k drawn ≡ some m
    → within m (safe k) ≡ true
unfolding look
look-within k safe [] h m e = cc
look-within k safe ((j, n) ∷ drawn) h m e =
    let (first, rest) = and-true (within n (safe j)) _ h in
    elim (Bool-cases (j == k)) [
      | inl same ↦
          let q : some n ≡ some m = rw same at e in
          rw (sym ((eq_iff j k).0 same), sym (some-injective q)) first
      | inr other ↦ look-within k safe drawn rest m (rw other at e)
    ]

within-le : (m n : ℕ) (o : Option ℕ) → m ≡ n → within m o ≡ true → (b : ℕ) × (o ≡ some b) × (n ≤ b)
within-le m n none e h = cc
within-le m n (some b) e h = (b, refl, rw (sym e) (leb→le m b h))

module _ (db : Database) (tenant_id : String) (p : CreateNextDayDraftPayload) where
  draw_stops-look :
      (k : String) (stops : List NextDayCandidateStopPayload) (drawn drawn' : List (String × ℕ))
      → draw_stops db tenant_id p stops drawn ≡ ok drawn'
      → or_zero (look k drawn') ≡ or_zero (look k drawn) + sum_by (cases_at k) stops
  unfolding draw_stops
  draw_stops-look k [] drawn drawn' h = rw (ok-injective h) omega arith
  draw_stops-look k (s ∷ stops) drawn drawn' h =
      let (u, e, f) = >>=-ok (check_stop db tenant_id p s) _ h in
      let g = draw_stops-look k stops (draw s.lot_id s.cases drawn) drawn' f in
      let i = look-draw s.lot_id k s.cases drawn in omega arith

  draw_vehicles-look :
      (k : String) (vehicles : List NextDayCandidateVehiclePayload)
      (drawn drawn' : List (String × ℕ))
      → draw_vehicles db tenant_id p vehicles drawn ≡ ok drawn'
      → or_zero (look k drawn') ≡ or_zero (look k drawn) + lot_cases k vehicles
  unfolding draw_vehicles
  draw_vehicles-look k [] drawn drawn' h = rw (ok-injective h) omega arith
  draw_vehicles-look k (v ∷ vehicles) drawn drawn' h =
      let (u, e, f) =
        >>=-ok (check_vehicle db tenant_id p v (operational db tenant_id v.vehicle_id)) _ h in
      let (mid, g, i) = >>=-ok (draw_stops db tenant_id p v.stops drawn) _ f in
      let j = draw_stops-look k v.stops drawn mid g in
      let l = draw_vehicles-look k vehicles mid drawn' i in omega arith

  -- A stop that was let through.
  abbrev pub IsPassedStop : NextDayCandidateStopPayload → Type 0
  IsPassedStop s =
      (is_barred db tenant_id p s.lot_id ≡ false)
      × (open_cases s.shortfall_id p.shortfalls ≡ some s.cases)

  -- A vehicle that was let through.
  abbrev pub IsPassedVehicle : NextDayCandidateVehiclePayload → Type 0
  IsPassedVehicle v =
      (r : VehicleRow) × (operational db tenant_id v.vehicle_id ≡ some r)
      × (r.current_load_cases + v.candidate_load_cases ≤ r.max_capacity_cases)
      × All IsPassedStop v.stops

  check_stop-ok :
      (s : NextDayCandidateStopPayload) → check_stop db tenant_id p s ≡ ok tt → IsPassedStop s
  unfolding check_stop
  check_stop-ok s h =
      let (free, f) = raise_if_passed (is_barred db tenant_id p s.lot_id) _ _ h in
      let (known, g) = raise_if_passed (is_none (safe_cases db tenant_id s.lot_id)) _ _ f in
      elim (Option-cases (open_cases s.shortfall_id p.shortfalls)) [
        | inl missing ↦ err-ok (rw missing at g)
        | inr (n, there) ↦
            (free, there ∙ ap some (sym (nat_eq→eq s.cases n (guard-ok _ _ (rw there at g)))))
      ]

  vehicle-ok :
      (v : NextDayCandidateVehiclePayload) {u : Unit {0}}
      → check_vehicle db tenant_id p v (operational db tenant_id v.vehicle_id) ≡ ok u
      → All IsPassedStop v.stops
      → IsPassedVehicle v
  vehicle-ok v h served = elim (Option-cases (operational db tenant_id v.vehicle_id)) [
    | inl missing ↦ err-ok (rw missing at h)
    | inr (r, there) ↦
        let (same, f) =
          guard_passed
            (nat_eq v.capacity_cases r.max_capacity_cases
              && nat_eq v.committed_load_cases r.current_load_cases)
            _ _ (rw there at h) in
        let room =
          raise_if-ok (ltb r.max_capacity_cases (r.current_load_cases + v.candidate_load_cases)) _
            f in
        (r, there, ltb-false→le _ _ room, served)
  ]

  draw_stops-IsPassedStop :
      (stops : List NextDayCandidateStopPayload) (drawn drawn' : List (String × ℕ))
      → draw_stops db tenant_id p stops drawn ≡ ok drawn'
      → All IsPassedStop stops
  unfolding draw_stops
  draw_stops-IsPassedStop [] drawn drawn' h = tt
  draw_stops-IsPassedStop (s ∷ stops) drawn drawn' h =
      let (u, e, f) = >>=-ok (check_stop db tenant_id p s) _ h in
      (check_stop-ok s e, draw_stops-IsPassedStop stops _ drawn' f)

  draw_vehicles-IsPassedVehicle :
      (vehicles : List NextDayCandidateVehiclePayload) (drawn drawn' : List (String × ℕ))
      → draw_vehicles db tenant_id p vehicles drawn ≡ ok drawn'
      → All IsPassedVehicle vehicles
  unfolding draw_vehicles
  draw_vehicles-IsPassedVehicle [] drawn drawn' h = tt
  draw_vehicles-IsPassedVehicle (v ∷ vehicles) drawn drawn' h =
      let row = operational db tenant_id v.vehicle_id in
      let (u, e, f) = >>=-ok (check_vehicle db tenant_id p v row) _ h in
      let (mid, g, i) = >>=-ok (draw_stops db tenant_id p v.stops drawn) _ f in
      let served = draw_stops-IsPassedStop v.stops drawn mid g in
      (vehicle-ok v e served, draw_vehicles-IsPassedVehicle vehicles mid drawn' i)

  -- The lots of the whole draft are within the confirmed safe stock.
  abbrev pub IsWithinStock : List NextDayCandidateVehiclePayload → Type 0
  IsWithinStock vehicles =
      (k : String)
      → (lot_cases k vehicles ≡ 0)
        ⊎ ((m : ℕ) × (safe_cases db tenant_id k ≡ some m) × (lot_cases k vehicles ≤ m))

  stocked :
      (vehicles : List NextDayCandidateVehiclePayload) (drawn : List (String × ℕ))
      → draw_vehicles db tenant_id p vehicles [] ≡ ok drawn
      → all (λ (d : String × ℕ). within d.1 (safe_cases db tenant_id d.0)) drawn ≡ true
      → IsWithinStock vehicles
  unfolding look or_zero
  stocked vehicles drawn h bounded k =
      let total = draw_vehicles-look k vehicles [] drawn h in
      let e : or_zero (look k drawn) ≡ lot_cases k vehicles = omega arith in
      elim (Option-cases (look k drawn)) [
        | inl nothing ↦ inl (sym (rw nothing at e))
        | inr (m, there) ↦ inr (
            within-le _ _ _ (rw (there) at e)
              (look-within k (safe_cases db tenant_id) drawn bounded m there))
      ]

  check_all :
      (vehicles : List NextDayCandidateVehiclePayload) {u : Unit {0}}
      → check_candidates_of db tenant_id p vehicles ≡ ok u
      → (vehicles ≡ []) ⊎ (check_candidates db tenant_id p ≡ ok u)
  check_all [] h = inl refl
  check_all (v ∷ vehicles) h = inr h

  pub candidates-ok :
      {u : Unit {0}}
      → check_candidates_of db tenant_id p p.candidate_vehicles ≡ ok u
      → IsWithinStock p.candidate_vehicles × All IsPassedVehicle p.candidate_vehicles
  unfolding check_candidates
  candidates-ok h = elim (check_all p.candidate_vehicles h) [
    | inl empty ↦ rw empty ((λ k. inl refl), tt)
    | inr checked ↦
        let (named, f) =
          guard_passed (p.plan_id == concat ("PLAN-" ∷ p.operating_date ∷ [])) _ _ checked in
        let (drawn, g, i) = >>=-ok (draw_vehicles db tenant_id p p.candidate_vehicles []) _ f in
        (
          stocked p.candidate_vehicles drawn g (guard-ok _ _ i),
          draw_vehicles-IsPassedVehicle p.candidate_vehicles [] drawn g,
        )
  ]
