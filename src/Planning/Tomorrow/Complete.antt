-- ===== src/Planning/Tomorrow/Complete.antt =====
-- A draft is derived from complete constraints only, and passes the validator of its command.
use full_shelf.Prelude.{
  ℕ, Bool, ◌≡◌, refl, sym, ap, subst, ◌&&◌, ◌==◌, Option, none, some, List, select, any, all, ◌⊎◌,
  Bool-cases, inl, inr, String, true, false, [], ◌∷◌, map, distinct, is_none, suc, arith, concat,
}
use full_shelf.Prelude.Errors.{Result, ok, >>=-ok, guard_passed, ok-injective}
use full_shelf.Prelude.Sorting.{sort_by}
use full_shelf.Ledger.Rows.{IncidentRow, LotRow, VehicleRow, RecoveryShortfallRow}
use full_shelf.Ledger.Database.{Database}
use full_shelf.Ledger.Payloads.{
  CreateNextDayDraftPayload, NextDayBarrierPayload, NextDayShortfallPayload,
}
use full_shelf.Ledger.NextDay.Checks.{barrier_is_active, shortfall_is_open, hold_is_open}
use full_shelf.Planning.Tomorrow.Inherited.{
  is_open_recall, open_recalls-row, barriers-active, shortfalls-open, holds-open,
}
use full_shelf.Ledger.Validators.{validated_payload}
use full_shelf.Ledger.Commands.{Environment, LedgerCommand, create_next_day_draft}
use full_shelf.Planning.Candidates.Accepted.{candidate_assignments-validate_next_day}
use full_shelf.Planning.Tomorrow.{
  Continuity, read_continuity, missing_constraints, agency_name, plan_orders, empty, open_recalls,
  first_id, single_incident, incident_id_of, safe_lot_rows, fleet_rows, lot_before, truck_before,
}
use full_shelf.Planning.Tomorrow.Draft.{
  source_day, next_day_payload, next_day_command, generate_next_day_plan,
}

-- The constraints that are read are all there.
record IsComplete (c : Continuity) : Type 0 where
  recalled : is_none c.incident ≡ false
  barred : empty c.barriers ≡ false
  short : empty c.shortfalls ≡ false
  held : empty c.holds ≡ false
  stocked : empty c.safe_lots ≡ false
  carried_by : empty c.fleet ≡ false

missing_constraints-IsComplete :
    (c : Continuity) → empty (missing_constraints c) ≡ true → IsComplete c
unfolding missing_constraints
missing_constraints-IsComplete c h = record {
  recalled = ground (arith, h);
  barred = ground (arith, h);
  short = ground (arith, h);
  held = ground (arith, h);
  stocked = ground (arith, h);
  carried_by = ground (arith, h);
}

-- What a draft takes over from the day before, on the rows of the database.
pub record Inherits (x : Environment) (db : Database) (tenant_id : String)
    (p : CreateNextDayDraftPayload) : Type 0 where
  incident : IncidentRow
  recalled : is_open_recall db tenant_id incident.incident_id incident.affected_lot_id ≡ true
  barred : empty p.barriers ≡ false
  on_lot :
      all
        (λ (b : NextDayBarrierPayload).
          barrier_is_active db tenant_id b && b.lot_id == incident.affected_lot_id)
        p.barriers
      ≡ true
  short : empty p.shortfalls ≡ false
  owed : all (shortfall_is_open db tenant_id) p.shortfalls ≡ true
  held : empty p.acknowledgment_holds ≡ false
  waiting : all (hold_is_open x db tenant_id) p.acknowledgment_holds ≡ true
  stocked :
      any (λ (l : LotRow). l.tenant_id == tenant_id && l.hazard_status == "CLEAR_SAFE") db.lots
      ≡ true
  staffed :
      any (λ (v : VehicleRow). v.tenant_id == tenant_id && v.is_operational) db.vehicles ≡ true

present {ℓ} : {A : Type ℓ} (o : Option A) → is_none o ≡ false → (a : A) × (o ≡ some a)
present none h = cc
present (some a) h = (a, refl)

empty-map {ℓ κ} :
    {A : Type ℓ} {B : Type κ} (f : A → B) (xs : List A)
    → empty xs ≡ false
    → empty (map f xs) ≡ false
empty-map f [] h = h
empty-map f (a ∷ xs) h = refl

-- A table whose query answers something has a row that passes the test.
some-row {ℓ} :
    {A : Type ℓ} (before : A → A → Bool) (p : A → Bool) (xs : List A)
    → empty (sort_by before (select p xs)) ≡ false
    → any p xs ≡ true
unfolding sort_by
some-row before p [] h = cc
some-row before p (a ∷ xs) h = elim (Bool-cases (p a)) [
  | inl hit ↦ rw hit refl
  | inr miss ↦ rw miss (some-row before p xs (rw miss at h))
]

safe_lot_rows-some :
    (db : Database) (tenant_id : String)
    → empty (safe_lot_rows db tenant_id) ≡ false
    → any (λ (l : LotRow). l.tenant_id == tenant_id && l.hazard_status == "CLEAR_SAFE") db.lots
      ≡ true
unfolding safe_lot_rows
safe_lot_rows-some db tenant_id h = some-row lot_before _ db.lots h

fleet_rows-some :
    (db : Database) (tenant_id : String)
    → empty (fleet_rows db tenant_id) ≡ false
    → any (λ (v : VehicleRow). v.tenant_id == tenant_id && v.is_operational) db.vehicles ≡ true
unfolding fleet_rows
fleet_rows-some db tenant_id h = some-row truck_before _ db.vehicles h

-- The payload's shortfalls have the identifiers of the rows.
map-ids :
    (rows : List RecoveryShortfallRow)
    → map
        (λ (s : NextDayShortfallPayload). s.shortfall_id)
        (map
          (λ (r : RecoveryShortfallRow). record {
            shortfall_id = r.shortfall_id;
            agency_id = r.agency_id;
            cases = r.cases;
          })
          rows)
      ≡ map (λ (r : RecoveryShortfallRow). r.shortfall_id) rows
map-ids [] = refl
map-ids (r ∷ rows) = ap (λ ids. r.shortfall_id ∷ ids) (map-ids rows)

ids_apart :
    (rows : List RecoveryShortfallRow)
    → distinct (
        map
          (λ (s : NextDayShortfallPayload). s.shortfall_id)
          (map
            (λ (r : RecoveryShortfallRow). record {
              shortfall_id = r.shortfall_id;
              agency_id = r.agency_id;
              cases = r.cases;
            })
            rows))
      ≡ true
    → distinct (map (λ (r : RecoveryShortfallRow). r.shortfall_id) rows) ≡ true
ids_apart rows h = subst (λ ids. distinct ids ≡ true) (map-ids rows) h

module _ (x : Environment) (iso_day : ℕ → String) where
  payload_valid :
      (db : Database) (tenant_id source_operating_day operating_date : String) (c : Continuity)
      → distinct (map (λ r. r.shortfall_id) c.shortfalls) ≡ true
      → validated_payload x (
          create_next_day_draft
            (next_day_payload x iso_day db tenant_id source_operating_day operating_date c))
        ≡ ok (
            create_next_day_draft
              (next_day_payload x iso_day db tenant_id source_operating_day operating_date c))
  unfolding validated_payload next_day_payload
  payload_valid db tenant_id source_operating_day operating_date c apart =
      let p = next_day_payload x iso_day db tenant_id source_operating_day operating_date c in
      let plan_id = concat ("PLAN-" ∷ operating_date ∷ []) in
      let names =
        agency_name (plan_orders db tenant_id (concat ("PLAN-" ∷ source_operating_day ∷ []))) in
      let valid =
        candidate_assignments-validate_next_day plan_id names c.shortfalls c.safe_lots c.fleet p
          apart in
      rw valid refl

  payload-Inherits :
      (db : Database) (tenant_id source_operating_day operating_date : String)
      → IsComplete (read_continuity x db tenant_id)
      → Inherits x db tenant_id (
          next_day_payload x iso_day db tenant_id source_operating_day operating_date
            (read_continuity x db tenant_id))
  unfolding next_day_payload read_continuity
  payload-Inherits db tenant_id source_operating_day operating_date complete =
      let rows = open_recalls db tenant_id in
      let id = first_id rows in
      let (i, one) = present (single_incident rows) complete.recalled in
      record {
        incident = i;
        recalled = open_recalls-row db tenant_id i one;
        barred = empty-map _ _ complete.barred;
        on_lot = rw one (barriers-active db tenant_id i id);
        short = empty-map _ _ complete.short;
        owed = shortfalls-open db tenant_id id;
        held = empty-map _ _ complete.held;
        waiting = holds-open db tenant_id x (incident_id_of (single_incident rows));
        stocked = safe_lot_rows-some db tenant_id complete.stocked;
        staffed = fleet_rows-some db tenant_id complete.carried_by;
      }

  -- A command for tomorrow's draft belongs to the tenant, and its payload inherits what is
  -- unresolved: there is a recall of the tenant that is PARTIALLY_CONTAINED; at least one barrier,
  -- shortfall and hold is carried; the ledger's checks of the draft's barriers, shortfalls and holds
  -- pass on the database that it was derived from, each barrier on the lot of that recall; and the
  -- tenant has a CLEAR_SAFE lot and an operational vehicle. Also, two shortfalls of the payload
  -- have one identifier, or it passes the validator of its command unchanged.
  pub generate_next_day_plan-validated :
      (run_fleet : Continuity → Result (Unit {0})) (db : Database)
      (tenant_id trace_id source_operating_day : String) (command : LedgerCommand)
      → generate_next_day_plan x iso_day run_fleet db tenant_id trace_id source_operating_day
        ≡ ok command
      → (p : CreateNextDayDraftPayload) × (command.payload ≡ create_next_day_draft p)
        × (command.tenant_id ≡ tenant_id)
        × Inherits x db tenant_id p
        × ((distinct (map (λ (s : NextDayShortfallPayload). s.shortfall_id) p.shortfalls) ≡ false)
            ⊎ (validated_payload x command.payload ≡ ok command.payload))
  unfolding generate_next_day_plan next_day_command next_day_payload
  generate_next_day_plan-validated run_fleet db tenant_id trace_id source_operating_day command h =
      let c = read_continuity x db tenant_id in
      let (day, _, h1) = >>=-ok (source_day (x.parse_date source_operating_day)) _ h in
      let (complete, h2) = guard_passed (empty (missing_constraints c)) _ _ h1 in
      let (u, _, h3) = >>=-ok (run_fleet c) _ h2 in
      let made = ok-injective h3 in
      let p = next_day_payload x iso_day db tenant_id source_operating_day (iso_day (suc day)) c in
      (
        p,
        sym (ap (λ m. m.payload) made),
        sym (ap (λ m. m.tenant_id) made),
        payload-Inherits db tenant_id source_operating_day (iso_day (suc day))
            (missing_constraints-IsComplete c complete),
        elim (Bool-cases
            (distinct (map (λ (s : NextDayShortfallPayload). s.shortfall_id) p.shortfalls))) [
              | inr repeated ↦ inl repeated
              | inl apart ↦ inr (
                  subst (λ m. validated_payload x m.payload ≡ ok m.payload) made
                    (payload_valid db tenant_id source_operating_day (iso_day (suc day)) c
                      (ids_apart c.shortfalls apart)))
            ],
      )
