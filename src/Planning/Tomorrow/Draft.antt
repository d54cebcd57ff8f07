-- ===== src/Planning/Tomorrow/Draft.antt =====
-- apps/orchestrator/src/main.py, `_generate_next_day_plan`: the command that carries the draft.
use full_shelf.Prelude.{ℕ, suc, String, Option, none, some, [], ◌∷◌, map, concat}
use full_shelf.Prelude.Errors.{Result, ok, err, http_error, http_missing, ◌>>=◌, ◌>>◌, guard}
use full_shelf.Ledger.Json.{text, obj, end, field}
use full_shelf.Ledger.Rows.{IncidentRow}
use full_shelf.Ledger.Database.{Database}
use full_shelf.Ledger.Payloads.{CreateNextDayDraftPayload}
use full_shelf.Ledger.Commands.{Environment, LedgerCommand, create_next_day_draft}
use full_shelf.Planning.Candidates.{candidate_assignments}
use full_shelf.Planning.Tomorrow.{
  Continuity, read_continuity, missing_constraints, agency_name, plan_orders, empty,
}

unfoldable pub source_day : Option ℕ → Result ℕ
source_day none = err (http_error 400 "SOURCE_OPERATING_DAY_INVALID")
source_day (some day) = ok day

abbrev incident_or : String → Option IncidentRow → String
incident_or other none = other
incident_or other (some r) = r.incident_id

-- `iso_day` is `date.isoformat` of a day.
module _ (x : Environment) (iso_day : ℕ → String) where
  unfoldable pub stable_event_id : String → String → String → String
  stable_event_id tenant_id source_operating_day plan_id = concat (
      "NEXTDAY-"
      ∷ x.upper (
          x.prefix 32 (
            x.sha256_hex (
              x.dumps_compact (
                obj (
                  field "event_type" (text "PLAN_NEXT_DAY_REQUESTED") (
                    field "plan_id" (text plan_id) (
                      field "revision" (text "rev01") (
                        field "source_operating_day" (text source_operating_day)
                          (field "tenant_id" (text tenant_id) end)))))))))
      ∷ [])

  unfoldable pub next_day_payload :
      Database → String → String → String → Continuity → CreateNextDayDraftPayload
  unfolding stable_event_id plan_orders agency_name
  next_day_payload db tenant_id source_operating_day operating_date c =
      let plan_id = concat ("PLAN-" ∷ operating_date ∷ []) in
      let orders = plan_orders db tenant_id (concat ("PLAN-" ∷ source_operating_day ∷ [])) in
      let candidate =
        candidate_assignments plan_id (agency_name orders) c.shortfalls c.safe_lots c.fleet in
      record {
        source_event_id = stable_event_id tenant_id source_operating_day plan_id;
        source_operating_day = source_operating_day;
        event_type = "PLAN_NEXT_DAY_REQUESTED";
        operating_date = operating_date;
        plan_id = plan_id;
        revision = "rev01";
        status = "DRAFT_WITH_CONSTRAINTS";
        coordinator_id = concat ("COORD-" ∷ operating_date ∷ []);
        barriers = map (λ r. record { barrier_id = r.barrier_id; lot_id = r.lot_id }) c.barriers;
        shortfalls =
            map
              (λ r. record {
                shortfall_id = r.shortfall_id;
                agency_id = r.agency_id;
                cases = r.cases;
              })
              c.shortfalls;
        acknowledgment_holds =
            map
              (λ h. record {
                hold_incident_id = h.hold_incident_id;
                site_id = h.site_id;
                unconfirmed_cases = h.unconfirmed_cases;
              })
              c.holds;
        candidate_vehicles = candidate.0;
        unassigned_demand = candidate.1;
      }

  unfoldable pub next_day_command :
      Database → String → String → String → String → Continuity → LedgerCommand
  unfolding next_day_payload
  next_day_command db tenant_id trace_id source_operating_day operating_date c = record {
    command_id = concat ("CMD-NEXT-DAY-" ∷ operating_date ∷ "-REV01" ∷ []);
    idempotency_key = concat (tenant_id ∷ ":PLAN-" ∷ operating_date ∷ ":rev01:day-close" ∷ []);
    tenant_id = tenant_id;
    incident_id = incident_or "" c.incident;
    agent_role = "FULFILLMENT_RECOVERY_PLANNER";
    expected_plan_revision = some "rev08";
    trace_id = trace_id;
    payload =
        create_next_day_draft (next_day_payload db tenant_id source_operating_day operating_date c);
  }

  -- From the database that the scope of the tenant names (Security/Scopes) to the command that is sent
  -- to the ledger. The run of the fleet in between is a parameter; the reads do not fail.
  unfoldable pub generate_next_day_plan :
      (Continuity → Result (Unit {0})) → Database → String → String → String → Result LedgerCommand
  unfolding source_day read_continuity missing_constraints next_day_command
  generate_next_day_plan run_fleet db tenant_id trace_id source_operating_day = do
    day ← source_day (x.parse_date source_operating_day)
    let c = read_continuity x db tenant_id
    guard (empty (missing_constraints c))
        (http_missing 409 "NEXT_DAY_AUTHORITATIVE_CONSTRAINTS_INCOMPLETE" (missing_constraints c))
    run_fleet c
    ok (next_day_command db tenant_id trace_id source_operating_day (iso_day (suc day)) c)
