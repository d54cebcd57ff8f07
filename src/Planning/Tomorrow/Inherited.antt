-- ===== src/Planning/Tomorrow/Inherited.antt =====
-- What the reads of the day's end answer, against the checks of the ledger on the draft.
use full_shelf.Prelude.{
  ℕ, ◌≡◌, refl, String, Bool, true, ◌&&◌, not, ◌==◌, eq_refl, Option, none, some, List, [], ◌∷◌,
  map, select, first, All, all, any, ltb, nat_eq, option_eq, Bool-cases, inl, inr, arith,
  if◌then◌else◌,
}
use full_shelf.Prelude.Sorting.{
  sort_by, All-sort_by, IsRow, All-query, All-also, All-append, All-imp, first-any,
}
use full_shelf.Ledger.Json.{Json, get_text, get_num}
use full_shelf.Ledger.Rows.{IncidentRow, MovementBarrierRow, RecoveryShortfallRow}
use full_shelf.Ledger.Database.{Database}
use full_shelf.Ledger.Payloads.{NextDayBarrierPayload, NextDayAcknowledgmentHoldPayload}
use full_shelf.Ledger.Commands.{Environment}
use full_shelf.Ledger.NextDay.Checks.{
  barrier_is_active, shortfall_is_open, hold_is_open, hold_matches,
}
use full_shelf.Planning.Tomorrow.{
  OpenHold, open_recalls, single_incident, barrier_rows, barriers_on, shortfall_rows, hold_rows,
  hold_with, hold_of, open_holds, barrier_before, shortfall_before,
}

all-map {ℓ κ} :
    {A : Type ℓ} {B : Type κ} (p : B → Bool) (f : A → B) (xs : List A)
    → All (λ a. p (f a) ≡ true) xs
    → all p (map f xs) ≡ true
all-map p f [] h = refl
all-map p f (a ∷ xs) (here, rest) = rw (here, all-map p f xs rest) refl

single-first :
    (rows : List IncidentRow) (i : IncidentRow)
    → single_incident rows ≡ some i
    → first rows ≡ some i
unfolding single_incident
single-first [] i h = cc
single-first (r ∷ []) i h = h
single-first (r ∷ s ∷ rows) i h = cc

module _ (db : Database) (tenant_id : String) where
  -- The incident is an open recall of the tenant, on a lot.
  abbrev pub is_open_recall : String → String → Bool
  is_open_recall incident_id lot_id =
      any
        (λ (r : IncidentRow).
          r.tenant_id == tenant_id
          && (r.incident_id == incident_id
              && (r.incident_type == "FOOD_SAFETY_RECALL"
                  && (r.status == "PARTIALLY_CONTAINED" && r.affected_lot_id == lot_id))))
        db.incidents

  pub open_recalls-row :
      (i : IncidentRow)
      → single_incident (open_recalls db tenant_id) ≡ some i
      → is_open_recall i.incident_id i.affected_lot_id ≡ true
  unfolding open_recalls
  open_recalls-row i h =
      first-any _ _ db.incidents i (single-first (open_recalls db tenant_id) i h)
        (λ hit. ground (arith, hit, eq_refl i.incident_id, eq_refl i.affected_lot_id))

  -- A barrier row that is read is active, and on the lot of the incident.
  pub barriers-active :
      (i : IncidentRow) (incident_id : String)
      → all
          (λ (b : NextDayBarrierPayload).
            barrier_is_active db tenant_id b && b.lot_id == i.affected_lot_id)
          (map
            (λ (r : MovementBarrierRow). record { barrier_id = r.barrier_id; lot_id = r.lot_id })
            (barriers_on (some i) (barrier_rows db tenant_id incident_id)))
        ≡ true
  unfolding barriers_on barrier_rows barrier_is_active
  barriers-active i incident_id =
      let rows =
        select
          (λ (r : MovementBarrierRow).
            r.tenant_id == tenant_id && (r.incident_id == incident_id && r.status == "ACTIVE"))
          db.movement_barriers in
      let found = All-sort_by barrier_before _ rows (All-query _ db.movement_barriers) in
      all-map _ _ _ (
        All-imp _
          (All-also _ (λ (r : MovementBarrierRow). r.lot_id == i.affected_lot_id)
            (sort_by barrier_before rows) found)
          (λ r (on_lot, (hit, row)).
            rw
              (row
                (λ (s : MovementBarrierRow).
                  s.tenant_id == tenant_id
                  && (s.barrier_id == r.barrier_id
                      && (s.lot_id == r.lot_id && s.status == "ACTIVE")))
                (ground (arith, hit, eq_refl r.barrier_id, eq_refl r.lot_id)))
              on_lot))

  pub shortfalls-open :
      (incident_id : String)
      → all (shortfall_is_open db tenant_id) (
          map
            (λ (r : RecoveryShortfallRow). record {
              shortfall_id = r.shortfall_id;
              agency_id = r.agency_id;
              cases = r.cases;
            })
            (shortfall_rows db tenant_id incident_id))
        ≡ true
  unfolding shortfall_rows shortfall_is_open
  shortfalls-open incident_id =
      let rows =
        select
          (λ (r : RecoveryShortfallRow).
            r.tenant_id == tenant_id && (r.incident_id == incident_id && r.status == "OPEN"))
          db.recovery_shortfalls in
      all-map _ _ _ (
        All-imp _ (All-sort_by shortfall_before _ rows (All-query _ db.recovery_shortfalls))
          (λ r (hit, row).
            row
              (λ (s : RecoveryShortfallRow).
                s.tenant_id == tenant_id
                && (s.shortfall_id == r.shortfall_id
                    && (s.agency_id == r.agency_id
                        && (nat_eq s.cases r.cases && s.status == "OPEN"))))
              (ground (arith, hit, eq_refl r.shortfall_id, eq_refl r.agency_id))))

  -- The hold as the draft carries it.
  abbrev pub carried : OpenHold → NextDayAcknowledgmentHoldPayload
  carried h = record {
    hold_incident_id = h.hold_incident_id;
    site_id = h.site_id;
    unconfirmed_cases = h.unconfirmed_cases;
  }

  module _ (x : Environment) where
    abbrev is_hold : IncidentRow → Bool
    is_hold r =
        r.tenant_id == tenant_id
        && (r.incident_type == "DEADLINE_HOLD" && r.status == "ACKNOWLEDGMENT_HOLD_ACTIVE")

    abbrev document : IncidentRow → Option Json
    document r = x.loads (if r.details == "" then "{}" else r.details)

    abbrev IsHeld : OpenHold → Type 0
    IsHeld h = hold_is_open x db tenant_id (carried h) ≡ true

    hold_with-IsHeld :
        (r : IncidentRow) (j : Json) (site_id : Option String) (n : Option ℕ)
        → is_hold r ≡ true
        → IsRow db.incidents r
        → document r ≡ some j
        → get_text "site_id" j ≡ site_id
        → get_num "unconfirmed_cases" j ≡ n
        → All IsHeld (hold_with r site_id n)
    unfolding hold_with hold_is_open
    hold_with-IsHeld r j none n hit row e f g = tt
    hold_with-IsHeld r j (some site_id) none hit row e f g = tt
    hold_with-IsHeld r j (some site_id) (some n) hit row e f g =
        let h : NextDayAcknowledgmentHoldPayload = record {
          hold_incident_id = r.incident_id;
          site_id = site_id;
          unconfirmed_cases = n;
        } in
        let matches : hold_matches h (document r) ≡ true =
          rw (e, f, g) (ground (arith, eq_refl site_id)) in
        elim (Bool-cases (not (site_id == "") && ltb 0 n)) [
          | inr dropped ↦ rw dropped tt
          | inl kept ↦ rw kept (
            row
                (λ (s : IncidentRow).
                  (s.tenant_id == tenant_id
                    && (s.incident_id == r.incident_id
                        && (s.incident_type == "DEADLINE_HOLD"
                            && s.status == "ACKNOWLEDGMENT_HOLD_ACTIVE")))
                  && hold_matches h (document s))
                (ground (arith, hit, eq_refl r.incident_id, matches)),
            tt,
          )
        ]

    hold_of-IsHeld :
        (r : IncidentRow) (incident_id : Option String) (o : Option Json)
        → is_hold r ≡ true
        → IsRow db.incidents r
        → document r ≡ o
        → All IsHeld (hold_of r incident_id o)
    unfolding hold_of
    hold_of-IsHeld r incident_id none hit row e = tt
    hold_of-IsHeld r incident_id (some j) hit row e =
        elim (Bool-cases (option_eq (get_text "parent_incident_id" j) incident_id)) [
          | inl parent ↦ rw parent (
              hold_with-IsHeld r j (get_text "site_id" j) (get_num "unconfirmed_cases" j) hit row e
                refl refl)
          | inr other ↦ rw other tt
        ]

    open_holds-IsHeld :
        (incident_id : Option String) (rows : List IncidentRow)
        → All (λ r. (is_hold r ≡ true) × IsRow db.incidents r) rows
        → All IsHeld (open_holds x incident_id rows)
    unfolding open_holds
    open_holds-IsHeld incident_id [] h = tt
    open_holds-IsHeld incident_id (r ∷ rows) ((hit, row), rest) =
        All-append IsHeld _ _ (hold_of-IsHeld r incident_id (document r) hit row refl)
          (open_holds-IsHeld incident_id rows rest)

    -- A hold that is read is open, with the site and the cases of its details.
    pub holds-open :
        (incident_id : Option String)
        → all
            (hold_is_open x db tenant_id)
            (map carried (open_holds x incident_id (hold_rows db tenant_id)))
          ≡ true
    unfolding hold_rows
    holds-open incident_id =
        all-map _ _ _
          (open_holds-IsHeld incident_id (hold_rows db tenant_id) (All-query is_hold db.incidents))
