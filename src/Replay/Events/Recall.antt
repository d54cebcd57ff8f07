-- ===== src/Replay/Events/Recall.antt =====
-- Events 11 to 25 of tools/replay/events.py: the recall, up to the day after.
use full_shelf.Prelude.{true, false, none, some, List, [], ◌∷◌}
use full_shelf.Replay.Events.Types.{CanonicalEvent, canonical_event, info, at}
use full_shelf.Replay.Events.Actors.{
  recall_inc, agent_custody, agent_extraction, agent_fulfillment, agent_incident_lead, armor,
  ledger, policy, projection_service, regulator,
}

unfoldable pub recall_events : List CanonicalEvent
recall_events =
    canonical_event 11 "FS-E011-RECALL-NOTICE-RECEIVED" "RECALL_NOTICE_RECEIVED" (at 9 36)
      "EXTERNAL_EVENT" regulator (some recall_inc)
      (info "CRITICAL" "Recall notice received" "Representative FDA-format notice for lot LTC-4471."
        true)
      (some "recall_received") ("fixture-RCT-status:SCOPING" ∷ [])
    ∷ canonical_event 12 "FS-E012-MODEL-ARMOR-PASSED" "MODEL_ARMOR_PASSED" (at 9 36)
        "AUTONOMOUS_CHAINED" armor (some recall_inc)
        (info "INFO" "Safety screening passed"
          "A pass is not factual sufficiency. Model Armor is not an agent." false)
        none []
    ∷ canonical_event 13 "FS-E013-RECALL-SCOPE-EXTRACTED" "RECALL_SCOPE_EXTRACTED" (at 10 4)
        "AUTONOMOUS_CHAINED" agent_extraction (some recall_inc)
        (info "ATTENTION" "Recall scope extracted"
          "Lot LTC-4471, E. coli O157:H7. Source-anchored; no invented custody." false)
        (some "processing") []
    ∷ canonical_event 14 "FS-E014-RECALL-RESPONSE-SCOPED" "RECALL_RESPONSE_SCOPED" (at 10 4)
        "AUTONOMOUS_CHAINED" agent_incident_lead (some recall_inc)
        (info "ATTENTION" "Recall response scoped"
          "Governed recall-response playbook selected. INC-2231 scoping." false)
        none []
    ∷ canonical_event 15 "FS-E015-MOVEMENT-BARRIER-ACTIVATED" "MOVEMENT_BARRIER_ACTIVATED" (at 10 5)
        "AUTONOMOUS_CHAINED" policy (some recall_inc)
        (info "CRITICAL" "Movement barrier active"
          "Further movement of LTC-4471 is barred. East Bay Distribution Annex acknowledgment opened."
          false)
        (some "custody") ("fixture-RCT-movement-barrier" ∷ [])
    ∷ canonical_event 16 "FS-E016-CONTAINMENT-IN-PROGRESS" "CONTAINMENT_IN_PROGRESS" (at 10 6)
        "AUTONOMOUS_CHAINED" ledger (some recall_inc)
        (info "ATTENTION" "Containment in progress" "INC-2231 advances after barrier activation."
          false)
        none ("fixture-RCT-status:CONTAINMENT_IN_PROGRESS" ∷ [])
    ∷ canonical_event 17 "FS-E017-REV08-INVALIDATED" "REV08_INVALIDATED" (at 10 7)
        "AUTONOMOUS_CHAINED" policy (some recall_inc)
        (info "CRITICAL" "rev08 invalidated"
          "Active plan is unsafe for the recalled lot. No rev09 is invented." false)
        none ("fixture-RCT-plan:invalidate" ∷ [])
    ∷ canonical_event 18 "FS-E018-CUSTODY-RECONCILED" "CUSTODY_RECONCILED" (at 10 10)
        "AUTONOMOUS_CHAINED" agent_custody (some recall_inc)
        (info "ATTENTION" "Custody reconciled"
          "96 unique, 88 confirmed, 8 unconfirmed at East Bay Distribution Annex. No double count."
          false)
        none []
    ∷ canonical_event 19 "FS-E019-SAFE-RECOVERY-PROPOSED" "SAFE_RECOVERY_PROPOSED" (at 10 10)
        "AUTONOMOUS_CHAINED" agent_fulfillment (some recall_inc)
        (info "ATTENTION" "Safe recovery proposed"
          "18 cases to Berkeley Community Pantry, 22 to Alameda Family Pantry. East Oakland Community Pantry short 20."
          false)
        none []
    ∷ canonical_event 20 "FS-E020-SAFE-RECOVERY-COMMITTED" "SAFE_RECOVERY_COMMITTED" (at 10 10)
        "AUTONOMOUS_CHAINED" policy (some recall_inc)
        (info "SUCCESS" "Safe recovery committed"
          "Exactly 40 safe replacements. East Oakland Community Pantry shortfall SF-A03 is 20."
          false)
        (some "recovery") ("fixture-RCT-safe-recovery" ∷ [])
    ∷ canonical_event 21 "FS-E021-CLOSURE-REFUSED" "CLOSURE_REFUSED" (at 10 12) "AUTONOMOUS_CHAINED"
        policy (some recall_inc)
        (info "REFUSAL" "Closure refused"
          "Eight cases remain unconfirmed. False containment refused with zero prohibited domain mutations."
          false)
        (some "refusal") []
    ∷ canonical_event 22 "FS-E022-PARTIALLY-CONTAINED" "PARTIALLY_CONTAINED" (at 10 13)
        "AUTONOMOUS_CHAINED" ledger (some recall_inc)
        (info "ATTENTION" "Partially contained"
          "Terminal canonical Friday state. Custody remains 88/96." false)
        (some "refusal") []
    ∷ canonical_event 23 "FS-E023-DAY-OUTCOME-PUBLISHED" "DAY_OUTCOME_PUBLISHED" (at 16 30)
        "AUTONOMOUS_SCHEDULED" projection_service (some recall_inc)
        (info "INFO" "Friday outcome published"
          "88/96 confirmed, 40 recovered, 20 short, East Bay Distribution Annex open." false)
        (some "outcome") []
    ∷ canonical_event 24 "FS-E024-SATURDAY-DRAFT-PROPOSED" "SATURDAY_DRAFT_PROPOSED" (at 17 0)
        "AUTONOMOUS_SCHEDULED" agent_fulfillment (some recall_inc)
        (info "ATTENTION" "Saturday draft proposed"
          "Saturday rev01 stored DRAFT_WITH_CONSTRAINTS. No activation control." false)
        (some "tomorrow") []
    ∷ canonical_event 25 "FS-E025-OBLIGATIONS-CARRIED-FORWARD" "OBLIGATIONS_CARRIED_FORWARD"
        (at 17 0) "AUTONOMOUS_CHAINED" projection_service (some recall_inc)
        (info "ATTENTION" "Obligations carried forward"
          "LTC-4471 barrier, East Oakland Community Pantry short 20, East Bay Distribution Annex acknowledgment, and the unresolved incident."
          false)
        none []
    ∷ []
