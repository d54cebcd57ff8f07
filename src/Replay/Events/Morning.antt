-- ===== src/Replay/Events/Morning.antt =====
-- Events 1 to 10 of tools/replay/events.py: the plan of the day, the truck failure and its repair.
use full_shelf.Prelude.{true, false, none, some, List, [], ◌∷◌}
use full_shelf.Replay.Events.Types.{CanonicalEvent, canonical_event, info, at}
use full_shelf.Replay.Events.Actors.{
  fleet_inc, agent_fulfillment, agent_incident_lead, ledger, projection_service, scheduler,
  synthetic_operator, telematics,
}

unfoldable pub morning_events : List CanonicalEvent
morning_events =
    canonical_event 1 "FS-E001-PLAN-GENERATION-TRIGGERED" "PLAN_GENERATION_TRIGGERED" (at 5 30)
      "AUTONOMOUS_SCHEDULED" scheduler none
      (info "INFO" "Morning plan generation triggered"
        "Candidate generation begins from current constraints." false)
      none []
    ∷ canonical_event 2 "FS-E002-REV07-PROPOSED" "REV07_PROPOSED" (at 5 30) "AUTONOMOUS_CHAINED"
        agent_fulfillment none
        (info "INFO" "rev07 proposed"
          "Deterministically feasible candidate for five stops and 96 cases." false)
        none []
    ∷ canonical_event 3 "FS-E003-REV07-APPROVED" "REV07_APPROVED" (at 6 45) "HUMAN_GATE"
        synthetic_operator none
        (info "SUCCESS" "rev07 approved" "Exact rev07 candidate approved and bound." false) none []
    ∷ canonical_event 4 "FS-E004-REV07-ACTIVATED" "REV07_ACTIVATED" (at 7 30) "AUTONOMOUS_CHAINED"
        ledger none
        (info "SUCCESS" "rev07 active" "Five commitments and manifests are authoritative." false)
        none ("fixture-RCT-plan:rev07" ∷ [])
    ∷ canonical_event 5 "FS-E005-DAY-OPENED" "DAY_OPENED" (at 8 5) "AUTONOMOUS_SCHEDULED"
        projection_service none
        (info "INFO" "Friday opened" "Five stops, 96 cases, Truck 2 at 36/60." false)
        (some "healthy") []
    ∷ canonical_event 6 "FS-E006-REFRIGERATION-FAILURE-RECEIVED" "REFRIGERATION_FAILURE_RECEIVED"
        (at 8 20) "EXTERNAL_EVENT" telematics (some fleet_inc)
        (info "CRITICAL" "Truck 1 refrigeration failure"
          "Cold-chain capability unavailable. Not inferred from GPS." true)
        (some "truckfail") ("fixture-RCT-status:SCOPING" ∷ [])
    ∷ canonical_event 7 "FS-E007-FLEET-INCIDENT-SCOPED" "FLEET_INCIDENT_SCOPED" (at 8 20)
        "AUTONOMOUS_CHAINED" agent_incident_lead (some fleet_inc)
        (info "ATTENTION" "Incident scoped" "Cold-chain loss affects commitments O202 and O203."
          false)
        none []
    ∷ canonical_event 8 "FS-E008-REV08-REPAIR-PROPOSED" "REV08_REPAIR_PROPOSED" (at 8 21)
        "AUTONOMOUS_CHAINED" agent_fulfillment (some fleet_inc)
        (info "ATTENTION" "Repair proposed"
          "O202 (22 cases) to Truck 2; O203 (20 cases) to refrigerated partner pickup. rev07 remains authoritative."
          true)
        (some "review") []
    ∷ canonical_event 9 "FS-E009-REV08-REPAIR-APPROVED" "REV08_REPAIR_APPROVED" (at 8 24)
        "HUMAN_GATE" synthetic_operator (some fleet_inc)
        (info "SUCCESS" "Repair approved" "One click approves the exact diff once." false) none []
    ∷ canonical_event 10 "FS-E010-REV08-ACTIVATED" "REV08_ACTIVATED" (at 8 24) "AUTONOMOUS_CHAINED"
        ledger (some fleet_inc)
        (info "SUCCESS" "rev08 active" "Truck 2 at 58/60; O203 partner pickup; INC-2210 resolved."
          false)
        (some "rev08") ("fixture-RCT-plan:rev08" ∷ [])
    ∷ []
