-- ===== src/Ledger/NextDay/Checks.antt =====
-- ledger_executor.py, `_apply`, CREATE_NEXT_DAY_DRAFT: the checks against authoritative state.
use full_shelf.Prelude.{
  ℕ, ◌+◌, String, Bool, false, ◌&&◌, Option, none, some, List, [], ◌∷◌, ◌==◌, ltb, leb, nat_eq, any,
  all, first, select, option_eq, is_none, concat, if◌then◌else◌,
}
use full_shelf.Prelude.Errors.{Result, ok, err, value_error, ◌>>=◌, ◌>>◌, guard, raise_if}
use full_shelf.Ledger.Json.{Json, get_text, get_num}
use full_shelf.Ledger.Rows.{
  IncidentRow, LotRow, MovementBarrierRow, RecoveryShortfallRow, VehicleRow,
}
use full_shelf.Ledger.Database.{Database}
use full_shelf.Ledger.Payloads.{
  NextDayBarrierPayload, NextDayShortfallPayload, NextDayAcknowledgmentHoldPayload,
  NextDayCandidateStopPayload, NextDayCandidateVehiclePayload, CreateNextDayDraftPayload,
}
use full_shelf.Ledger.Commands.{Environment}

unfoldable pub barrier_is_active : Database → String → NextDayBarrierPayload → Bool
barrier_is_active db tenant_id b =
    any
      (λ (r : MovementBarrierRow).
        r.tenant_id == tenant_id
        && (r.barrier_id == b.barrier_id && (r.lot_id == b.lot_id && r.status == "ACTIVE")))
      db.movement_barriers

unfoldable pub shortfall_is_open : Database → String → NextDayShortfallPayload → Bool
shortfall_is_open db tenant_id s =
    any
      (λ (r : RecoveryShortfallRow).
        r.tenant_id == tenant_id
        && (r.shortfall_id == s.shortfall_id
            && (r.agency_id == s.agency_id && (nat_eq r.cases s.cases && r.status == "OPEN"))))
      db.recovery_shortfalls

-- `details.get("site_id") == … and details.get("unconfirmed_cases") == …`
abbrev num_is : Option ℕ → ℕ → Bool
num_is none n = false
num_is (some m) n = nat_eq m n

abbrev pub hold_matches : NextDayAcknowledgmentHoldPayload → Option Json → Bool
hold_matches h none = false
hold_matches h (some j) =
    option_eq (get_text "site_id" j) (some h.site_id)
    && num_is (get_num "unconfirmed_cases" j) h.unconfirmed_cases

-- The last entry of `{shortfall_id: cases}` wins.
unfoldable pub open_cases : String → List NextDayShortfallPayload → Option ℕ
open_cases k [] = none
open_cases k (s ∷ shortfalls) = elim (open_cases k shortfalls) [
  | some n ↦ some n
  | none ↦ if s.shortfall_id == k then some s.cases else none
]

abbrev pub total_of : Option LotRow → Option ℕ
total_of none = none
total_of (some l) = some l.total_cases

-- `safe_lots` at a lot: its cases, if it is confirmed safe.
unfoldable pub safe_cases : Database → String → String → Option ℕ
safe_cases db tenant_id lot_id = total_of (
    first (
      select
        (λ (l : LotRow).
          l.tenant_id == tenant_id && (l.lot_id == lot_id && l.hazard_status == "CLEAR_SAFE"))
        db.lots))

-- `operational` at a vehicle.
unfoldable pub operational : Database → String → String → Option VehicleRow
operational db tenant_id vehicle_id = first (
    select
      (λ (v : VehicleRow).
        v.tenant_id == tenant_id && (v.vehicle_id == vehicle_id && v.is_operational))
      db.vehicles)

-- `drawn[lot_id] = drawn.get(lot_id, 0) + cases`
unfoldable pub draw : String → ℕ → List (String × ℕ) → List (String × ℕ)
draw k n [] = (k, n) ∷ []
draw k n ((j, m) ∷ drawn) = if j == k then (j, m + n) ∷ drawn else (j, m) ∷ draw k n drawn

module _ (x : Environment) where
  -- The `for row in hold_rows` loop.
  unfoldable pub hold_is_open : Database → String → NextDayAcknowledgmentHoldPayload → Bool
  hold_is_open db tenant_id h =
      any
        (λ (r : IncidentRow).
          (r.tenant_id == tenant_id
            && (r.incident_id == h.hold_incident_id
                && (r.incident_type == "DEADLINE_HOLD"
                    && r.status == "ACKNOWLEDGMENT_HOLD_ACTIVE")))
          && hold_matches h (x.loads (if r.details == "" then "{}" else r.details)))
        db.incidents

abbrev pub within : ℕ → Option ℕ → Bool
within n none = false
within n (some m) = leb n m

module _ (db : Database) (tenant_id : String) (p : CreateNextDayDraftPayload) where
  abbrev pub is_barred : String → Bool
  is_barred lot_id = any (λ (b : NextDayBarrierPayload). lot_id == b.lot_id) p.barriers

  -- The checks on one stop, before its cases are drawn.
  unfoldable pub check_stop : NextDayCandidateStopPayload → Result (Unit {0})
  check_stop s = do
    raise_if (is_barred s.lot_id) (value_error "CANDIDATE_LOT_UNDER_MOVEMENT_BARRIER")
    raise_if (is_none (safe_cases db tenant_id s.lot_id))
        (value_error "CANDIDATE_LOT_NOT_CONFIRMED_SAFE")
    elim (open_cases s.shortfall_id p.shortfalls) [
      | none ↦ err (value_error "CANDIDATE_STOP_WITHOUT_OPEN_SHORTFALL")
      | some n ↦ guard (nat_eq s.cases n) (value_error "CANDIDATE_CASES_DO_NOT_MATCH_SHORTFALL")
    ]

  unfoldable pub draw_stops :
      List NextDayCandidateStopPayload → List (String × ℕ) → Result (List (String × ℕ))
  draw_stops [] drawn = ok drawn
  draw_stops (s ∷ stops) drawn = do check_stop s; draw_stops stops (draw s.lot_id s.cases drawn)

  -- The checks on one vehicle, against its row.
  abbrev pub check_vehicle : NextDayCandidateVehiclePayload → Option VehicleRow → Result (Unit {0})
  check_vehicle v none = err (value_error "CANDIDATE_VEHICLE_NOT_OPERATIONAL")
  check_vehicle v (some r) = do
    guard
        (nat_eq v.capacity_cases r.max_capacity_cases
          && nat_eq v.committed_load_cases r.current_load_cases)
        (value_error "CANDIDATE_VEHICLE_STATE_STALE")
    raise_if (ltb r.max_capacity_cases (r.current_load_cases + v.candidate_load_cases))
        (value_error "CANDIDATE_LOAD_EXCEEDS_VEHICLE_CAPACITY")

  unfoldable pub draw_vehicles :
      List NextDayCandidateVehiclePayload → List (String × ℕ) → Result (List (String × ℕ))
  draw_vehicles [] drawn = ok drawn
  draw_vehicles (v ∷ vehicles) drawn = do
    check_vehicle v (operational db tenant_id v.vehicle_id)
    drawn' ← draw_stops v.stops drawn
    draw_vehicles vehicles drawn'

  -- What runs if there are candidate vehicles.
  unfoldable pub check_candidates : Result (Unit {0})
  check_candidates = do
    guard (p.plan_id == concat ("PLAN-" ∷ p.operating_date ∷ []))
        (value_error "CANDIDATE_PLAN_IDENTITY_MISMATCH")
    drawn ← draw_vehicles p.candidate_vehicles []
    guard (all (λ (d : String × ℕ). within d.1 (safe_cases db tenant_id d.0)) drawn)
        (value_error "CANDIDATE_DRAW_EXCEEDS_CONFIRMED_SAFE_STOCK")

  abbrev pub check_candidates_of : List NextDayCandidateVehiclePayload → Result (Unit {0})
  check_candidates_of [] = ok tt
  check_candidates_of (v ∷ vehicles) = check_candidates
