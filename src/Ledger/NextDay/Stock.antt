-- ===== src/Ledger/NextDay/Stock.antt =====
-- The stock that a next-day draft draws from each lot, and the load it puts on each vehicle, against
-- the rows of the database.
use full_shelf.Prelude.{
  ℕ, ◌+◌, ◌≤◌, String, true, false, ◌&&◌, ◌≡◌, refl, ◌∙◌, ◌⊎◌, inl, inr, Option, none, some, List,
  [], ◌∷◌, ◌==◌, arith, Bool, first, select, leb, any, and-true, some-injective, Bool-cases,
  Option-cases, if◌then◌else◌, eq_iff, All, all, nat_eq,
}
use full_shelf.Prelude.Errors.{ok, >>=-ok, guard_passed}
use full_shelf.Ledger.Rows.{LotRow, VehicleRow, RecoveryShortfallRow, MovementBarrierRow}
use full_shelf.Ledger.Database.{Database}
use full_shelf.Ledger.Commit.{Transaction}
use full_shelf.Ledger.Payloads.{
  NextDayCandidateStopPayload, NextDayCandidateVehiclePayload, NextDayShortfallPayload,
  NextDayBarrierPayload, CreateNextDayDraftPayload,
}
use full_shelf.Ledger.Commands.{LedgerCommand, Environment}
use full_shelf.Ledger.NextDay.Checks.{
  safe_cases, total_of, open_cases, operational, check_candidates_of, barrier_is_active,
  shortfall_is_open, hold_is_open,
}
use full_shelf.Ledger.NextDay.Draft.{apply_next_day}
use full_shelf.Prelude.Sorting.{first-any, any-imp, All-imp, All-all}
use full_shelf.Ledger.NextDay.Passed.{
  lot_cases, IsPassedStop, IsPassedVehicle, IsWithinStock, candidates-ok,
}

total_of-some :
    (o : Option LotRow) (m : ℕ)
    → total_of o ≡ some m
    → (l : LotRow) × (o ≡ some l) × (l.total_cases ≡ m)
total_of-some none m h = cc
total_of-some (some l) m h = (l, refl, some-injective h)

module _ (db : Database) (tenant_id : String) where
  -- A lot of the tenant that is confirmed safe and has so many cases.
  abbrev pub has_safe_cases : String → ℕ → Bool
  has_safe_cases lot_id cases =
      any
        (λ (l : LotRow).
          l.tenant_id == tenant_id
          && (l.lot_id == lot_id && (l.hazard_status == "CLEAR_SAFE" && leb cases l.total_cases)))
        db.lots

  -- An open shortfall of the tenant, with exactly so many cases.
  abbrev pub has_open_cases : String → ℕ → Bool
  has_open_cases shortfall_id cases =
      any
        (λ (r : RecoveryShortfallRow).
          r.tenant_id == tenant_id
          && (r.shortfall_id == shortfall_id && (nat_eq r.cases cases && r.status == "OPEN")))
        db.recovery_shortfalls

  -- A vehicle of the tenant that works and has room for so many cases beside its recorded load.
  abbrev pub has_room : String → ℕ → Bool
  has_room vehicle_id cases =
      any
        (λ (v : VehicleRow).
          v.tenant_id == tenant_id
          && (v.vehicle_id == vehicle_id
              && (v.is_operational && leb (v.current_load_cases + cases) v.max_capacity_cases)))
        db.vehicles

  -- An active barrier of the tenant on a lot.
  abbrev pub has_barrier : String → String → Bool
  has_barrier barrier_id lot_id =
      any
        (λ (r : MovementBarrierRow).
          r.tenant_id == tenant_id
          && (r.barrier_id == barrier_id && (r.lot_id == lot_id && r.status == "ACTIVE")))
        db.movement_barriers

  abbrev safe_at : String → LotRow → Bool
  safe_at lot_id l =
      l.tenant_id == tenant_id && (l.lot_id == lot_id && l.hazard_status == "CLEAR_SAFE")

  abbrev works_as : String → VehicleRow → Bool
  works_as vehicle_id v =
      v.tenant_id == tenant_id && (v.vehicle_id == vehicle_id && v.is_operational)

  safe_cases-row :
      (k : String) (m n : ℕ)
      → safe_cases db tenant_id k ≡ some m
      → n ≤ m
      → has_safe_cases k n ≡ true
  unfolding safe_cases
  safe_cases-row k m n h low =
      let (l, e, same) = total_of-some (first (select (safe_at k) db.lots)) m h in
      first-any (safe_at k) _ db.lots l e (λ hit. ground (arith, same, low, hit))

  open_cases-row :
      (k : String) (n : ℕ) (ss : List NextDayShortfallPayload)
      → all (shortfall_is_open db tenant_id) ss ≡ true
      → open_cases k ss ≡ some n
      → has_open_cases k n ≡ true
  unfolding open_cases shortfall_is_open
  open_cases-row k n [] opens h = cc
  open_cases-row k n (s ∷ ss) opens h =
      let (here, rest) = and-true (shortfall_is_open db tenant_id s) _ opens in
      elim (Option-cases (open_cases k ss)) [
        | inr (m, later) ↦ open_cases-row k n ss rest (later ∙ (rw later at h))
        | inl none_ ↦
            let h1 : (if s.shortfall_id == k then some s.cases else none) ≡ some n =
              rw none_ at h in
            elim (Bool-cases (s.shortfall_id == k)) [
              | inr other ↦ cc
              | inl same ↦
                  let e : s.cases ≡ n = some-injective (rw same at h1) in
                  let named = (eq_iff s.shortfall_id k).0 same in
                  any-imp _ _ db.recovery_shortfalls here (λ r hit. ground (arith, hit, e, named))
            ]
      ]

  operational-row :
      (k : String) (r : VehicleRow) (n : ℕ)
      → operational db tenant_id k ≡ some r
      → r.current_load_cases + n ≤ r.max_capacity_cases
      → has_room k n ≡ true
  unfolding operational
  operational-row k r n h room =
      first-any (works_as k) _ db.vehicles r h (λ hit. ground (arith, hit, room))

  module _ (p : CreateNextDayDraftPayload) where
    -- A stop from a lot that the draft does not bar, for an open shortfall with exactly its cases.
    abbrev pub IsServed : NextDayCandidateStopPayload → Type 0
    IsServed s =
        (any (λ (b : NextDayBarrierPayload). s.lot_id == b.lot_id) p.barriers ≡ false)
        × (has_open_cases s.shortfall_id s.cases ≡ true)

    abbrev pub IsLoadable : NextDayCandidateVehiclePayload → Type 0
    IsLoadable v = (has_room v.vehicle_id v.candidate_load_cases ≡ true) × All IsServed v.stops

    -- What all the stops together draw from a lot is safe stock of that lot.
    abbrev pub IsStocked : List NextDayCandidateVehiclePayload → Type 0
    IsStocked vehicles =
        (k : String) → (lot_cases k vehicles ≡ 0) ⊎ (has_safe_cases k (lot_cases k vehicles) ≡ true)

    abbrev pub IsBarred : NextDayBarrierPayload → Type 0
    IsBarred b = has_barrier b.barrier_id b.lot_id ≡ true

    stop-IsServed :
        all (shortfall_is_open db tenant_id) p.shortfalls ≡ true
        → (s : NextDayCandidateStopPayload) → IsPassedStop db tenant_id p s
        → IsServed s
    stop-IsServed opens s (free, due) =
        (free, open_cases-row s.shortfall_id s.cases p.shortfalls opens due)

    vehicle-IsLoadable :
        all (shortfall_is_open db tenant_id) p.shortfalls ≡ true
        → (v : NextDayCandidateVehiclePayload) → IsPassedVehicle db tenant_id p v
        → IsLoadable v
    vehicle-IsLoadable opens v (r, works, room, served) = (
      operational-row v.vehicle_id r v.candidate_load_cases works room,
      All-imp v.stops served (stop-IsServed opens),
    )

    within-IsStocked :
        (vehicles : List NextDayCandidateVehiclePayload)
        → IsWithinStock db tenant_id p vehicles
        → IsStocked vehicles
    within-IsStocked vehicles within_ k = elim (within_ k) [
      | inl none_ ↦ inl none_
      | inr (m, e, low) ↦ inr (safe_cases-row k m (lot_cases k vehicles) e low)
    ]

module _ (x : Environment) where
  -- A next-day draft that the ledger accepts draws from each lot, over all its vehicles and stops, at
  -- most the cases of one row of that lot that is the tenant's and CLEAR_SAFE. Each entry for a
  -- vehicle, taken alone, names an operational vehicle of the tenant whose recorded load and the
  -- entry's load together fit its capacity. Each stop takes from a lot that no barrier of the draft
  -- names, and serves an open shortfall of the tenant with exactly its cases. Each barrier of the
  -- draft is an active barrier of the tenant on that lot.
  pub apply_next_day-IsStocked :
      (c : LedgerCommand) (p : CreateNextDayDraftPayload) (t t' : Transaction) (n : ℕ)
      → apply_next_day x c p t ≡ ok (n, t')
      → IsStocked t.db c.tenant_id p p.candidate_vehicles
        × All (IsLoadable t.db c.tenant_id p) p.candidate_vehicles
        × All (IsBarred t.db c.tenant_id p) p.barriers
  unfolding apply_next_day barrier_is_active
  apply_next_day-IsStocked c p t t' n h =
      let (b, h1) = guard_passed (all (barrier_is_active t.db c.tenant_id) p.barriers) _ _ h in
      let (s, h2) = guard_passed (all (shortfall_is_open t.db c.tenant_id) p.shortfalls) _ _ h1 in
      let (a, h3) =
        guard_passed (all (hold_is_open x t.db c.tenant_id) p.acknowledgment_holds) _ _ h2 in
      let (u, e, f) = >>=-ok (check_candidates_of t.db c.tenant_id p p.candidate_vehicles) _ h3 in
      let (within_, passed) = candidates-ok t.db c.tenant_id p e in
      (
        within-IsStocked t.db c.tenant_id p p.candidate_vehicles within_,
        All-imp p.candidate_vehicles passed (vehicle-IsLoadable t.db c.tenant_id p s),
        All-all (barrier_is_active t.db c.tenant_id) p.barriers b,
      )
