-- ===== src/Planning/Tomorrow.antt =====
-- apps/orchestrator/src/main.py, `_generate_next_day_plan`: the authoritative reads, the constraints
-- that must be there, and the command of the draft.
pub mod Draft
pub mod Inherited
pub mod Complete
use full_shelf.Prelude.{
  ℕ, String, Bool, true, false, ◌&&◌, not, ◌==◌, Option, none, some, List, [], ◌∷◌, ◌++◌, map,
  select, first, ltb, option_eq, is_none, concat, if◌then◌else◌,
}
use full_shelf.Prelude.Sorting.{sort_by, ltb_text}
use full_shelf.Ledger.Json.{Json, get_text, get_num}
use full_shelf.Ledger.Rows.{
  IncidentRow, MovementBarrierRow, RecoveryShortfallRow, LotRow, VehicleRow, OrderRow,
}
use full_shelf.Ledger.Database.{Database}
use full_shelf.Ledger.Commands.{Environment}

barrier_before : MovementBarrierRow → MovementBarrierRow → Bool
barrier_before a b = ltb_text a.barrier_id b.barrier_id

shortfall_before : RecoveryShortfallRow → RecoveryShortfallRow → Bool
shortfall_before a b = ltb_text a.shortfall_id b.shortfall_id

lot_before : LotRow → LotRow → Bool
lot_before a b = ltb_text a.lot_id b.lot_id

truck_before : VehicleRow → VehicleRow → Bool
truck_before a b = ltb_text a.vehicle_id b.vehicle_id

-- The recall incidents that are partially contained, the newest first.
unfoldable pub open_recalls : Database → String → List IncidentRow
open_recalls db tenant_id =
    select
      (λ r.
        r.tenant_id == tenant_id
        && (r.incident_type == "FOOD_SAFETY_RECALL" && r.status == "PARTIALLY_CONTAINED"))
      db.incidents

abbrev first_id : List IncidentRow → String
first_id [] = ""
first_id (r ∷ rows) = r.incident_id

unfoldable pub barrier_rows : Database → String → String → List MovementBarrierRow
unfolding barrier_before
barrier_rows db tenant_id incident_id = sort_by barrier_before (
    select (λ r. r.tenant_id == tenant_id && (r.incident_id == incident_id && r.status == "ACTIVE"))
      db.movement_barriers)

unfoldable pub shortfall_rows : Database → String → String → List RecoveryShortfallRow
unfolding shortfall_before
shortfall_rows db tenant_id incident_id = sort_by shortfall_before (
    select (λ r. r.tenant_id == tenant_id && (r.incident_id == incident_id && r.status == "OPEN"))
      db.recovery_shortfalls)

unfoldable pub hold_rows : Database → String → List IncidentRow
hold_rows db tenant_id =
    select
      (λ r.
        r.tenant_id == tenant_id
        && (r.incident_type == "DEADLINE_HOLD" && r.status == "ACKNOWLEDGMENT_HOLD_ACTIVE"))
      db.incidents

unfoldable pub safe_lot_rows : Database → String → List LotRow
unfolding lot_before
safe_lot_rows db tenant_id =
    sort_by lot_before
      (select (λ r. r.tenant_id == tenant_id && r.hazard_status == "CLEAR_SAFE") db.lots)

unfoldable pub fleet_rows : Database → String → List VehicleRow
unfolding truck_before
fleet_rows db tenant_id =
    sort_by truck_before (select (λ r. r.tenant_id == tenant_id && r.is_operational) db.vehicles)

-- `agency_names.get(agency_id)`: the rows are distinct, and the last one of an agency counts.
unfoldable pub agency_name : List OrderRow → String → Option String
agency_name [] agency_id = none
agency_name (o ∷ orders) agency_id = elim (agency_name orders agency_id) [
  | some name ↦ some name
  | none ↦ if o.destination_agency_id == agency_id then some o.destination_agency_name else none
]

unfoldable pub plan_orders : Database → String → String → List OrderRow
plan_orders db tenant_id plan_id =
    select (λ o. o.tenant_id == tenant_id && o.plan_id == plan_id) db.orders

-- `incident_rows[0] if len(incident_rows) == 1 else None`
unfoldable pub single_incident : List IncidentRow → Option IncidentRow
single_incident (r ∷ []) = some r
single_incident _ = none

-- A hold with the site and the cases that its details name.
pub record OpenHold : Type 0 where
  pub hold_incident_id : String
  pub site_id : String
  pub unconfirmed_cases : ℕ

abbrev incident_id_of : Option IncidentRow → Option String
incident_id_of none = none
incident_id_of (some r) = some r.incident_id

-- The barriers on the lot of the incident; without an incident there is no lot to compare with.
unfoldable pub barriers_on : Option IncidentRow → List MovementBarrierRow → List MovementBarrierRow
barriers_on none rows = []
barriers_on (some i) rows = select (λ r. r.lot_id == i.affected_lot_id) rows

hold_with : IncidentRow → Option String → Option ℕ → List OpenHold
hold_with r (some site_id) (some n) =
    if not (site_id == "") && ltb 0 n
    then record { hold_incident_id = r.incident_id; site_id = site_id; unconfirmed_cases = n } ∷ []
    else []
hold_with r _ _ = []

hold_of : IncidentRow → Option String → Option Json → List OpenHold
unfolding hold_with
hold_of r incident_id none = []
hold_of r incident_id (some details) =
    if option_eq (get_text "parent_incident_id" details) incident_id
    then hold_with r (get_text "site_id" details) (get_num "unconfirmed_cases" details)
    else []

-- Details that are no document are passed over. Others are as the executor writes them: an object
-- with a text for the parent and the site, and a natural number of cases.
unfoldable pub open_holds : Environment → Option String → List IncidentRow → List OpenHold
unfolding hold_of
open_holds x incident_id [] = []
open_holds x incident_id (r ∷ rows) =
    hold_of r incident_id (x.loads (if r.details == "" then "{}" else r.details))
    ++ open_holds x incident_id rows

-- What the plan is derived from.
pub record Continuity : Type 0 where
  pub incident : Option IncidentRow
  pub barriers : List MovementBarrierRow
  pub shortfalls : List RecoveryShortfallRow
  pub holds : List OpenHold
  pub safe_lots : List LotRow
  pub fleet : List VehicleRow

unfoldable pub read_continuity : Environment → Database → String → Continuity
unfolding open_recalls barrier_rows shortfall_rows hold_rows safe_lot_rows fleet_rows
    single_incident barriers_on open_holds
read_continuity x db tenant_id =
    let recalls = open_recalls db tenant_id in
    let incident = single_incident recalls in
    record {
      incident = incident;
      barriers = barriers_on incident (barrier_rows db tenant_id (first_id recalls));
      shortfalls = shortfall_rows db tenant_id (first_id recalls);
      holds = open_holds x (incident_id_of incident) (hold_rows db tenant_id);
      safe_lots = safe_lot_rows db tenant_id;
      fleet = fleet_rows db tenant_id;
    }

abbrev missing_if : Bool → String → List String
missing_if true code = code ∷ []
missing_if false code = []

abbrev pub empty {ℓ} : {A : Type ℓ} → List A → Bool
empty [] = true
empty (x ∷ xs) = false

-- The incident that is read has the status that the query asks for.
unfoldable pub missing_constraints : Continuity → List String
missing_constraints c =
    missing_if (is_none c.incident) "PARTIALLY_CONTAINED_RECALL"
    ++ (missing_if (empty c.barriers) "ACTIVE_RECALLED_LOT_BARRIER"
        ++ (missing_if (empty c.shortfalls) "OPEN_RECOVERY_SHORTFALL"
            ++ (missing_if (empty c.holds) "OPEN_ACKNOWLEDGMENT_HOLD"
                ++ (missing_if (empty c.safe_lots) "CONFIRMED_SAFE_INVENTORY"
                    ++ missing_if (empty c.fleet) "CONFIRMED_TRANSPORT_CAPACITY"))))
