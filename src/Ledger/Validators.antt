-- ===== src/Ledger/Validators.antt =====
-- ledger_commands.py: the validators that the payload models declare themselves.
use full_shelf.Prelude.{
  ℕ, suc, ◌+◌, String, Bool, true, ◌&&◌, List, [], ◌∷◌, ◌==◌, ltb, nat_eq, contains, any, sum_by,
}
use full_shelf.Prelude.Errors.{Result, ok, validation_error, ◌>>=◌, ◌>>◌, guard, raise_if}
use full_shelf.Evidence.{normalize_proposal}
use full_shelf.Ledger.Payloads.{
  NextDayCandidateStopPayload, NextDayCandidateVehiclePayload, NextDayUnassignedDemandPayload,
  CreateNextDayDraftPayload, PersistRepairProposalPayload, ProcessPartnerEvidencePayload,
}
use full_shelf.Ledger.Commands.{
  Payload, create_next_day_draft, persist_repair_proposal, process_partner_evidence, Environment,
}

-- `_proposal_is_feasible_and_not_an_activation`
unfoldable pub validate_proposal : PersistRepairProposalPayload → Result (Unit {0})
validate_proposal p = do
  raise_if (p.source_revision == p.proposed_revision)
      (validation_error "PROPOSAL_MUST_ADVANCE_A_REVISION")
  raise_if
      (ltb p.absorbing_vehicle_capacity_cases
        (p.absorbing_vehicle_committed_cases + p.plan_diff.reroute_cases))
      (validation_error "PROPOSED_REROUTE_EXCEEDS_ABSORBING_CAPACITY")
  raise_if (p.plan_diff.reroute_order_id == p.plan_diff.pickup_order_id)
      (validation_error "REROUTE_AND_PICKUP_MUST_BE_DISTINCT_ORDERS")
  raise_if (p.plan_diff.reroute_target_vehicle == p.vehicle_id)
      (validation_error "CANNOT_REROUTE_ONTO_THE_FAILED_VEHICLE")

abbrev pub stop_cases : List NextDayCandidateStopPayload → ℕ
stop_cases = sum_by (λ s. s.cases)

-- `[stop.sequence for stop in stops] == list(range(first, …))`
unfoldable pub is_contiguous : ℕ → List NextDayCandidateStopPayload → Bool
is_contiguous first [] = true
is_contiguous first (s ∷ stops) = nat_eq s.sequence first && is_contiguous (suc first) stops

-- The two sets that the loop fills: orders and shortfalls seen.
abbrev pub Seen : Type 0
Seen = List String × List String

-- The loop over the stops of one vehicle.
unfoldable pub check_stops : String → List NextDayCandidateStopPayload → Seen → Result Seen
check_stops vehicle_id [] seen = ok seen
check_stops vehicle_id (s ∷ stops) (orders, shortfalls) = do
  guard (s.vehicle_id == vehicle_id) (validation_error "CANDIDATE_STOP_VEHICLE_MISMATCH")
  raise_if (contains s.order_id orders) (validation_error "CANDIDATE_ORDER_ID_NOT_UNIQUE")
  check_stops vehicle_id stops (s.order_id ∷ orders, s.shortfall_id ∷ shortfalls)

unfoldable pub check_vehicles : List NextDayCandidateVehiclePayload → Seen → Result Seen
check_vehicles [] seen = ok seen
check_vehicles (v ∷ vehicles) seen = do
  guard (nat_eq (stop_cases v.stops) v.candidate_load_cases)
      (validation_error "CANDIDATE_LOAD_DOES_NOT_MATCH_STOPS")
  raise_if (ltb v.capacity_cases (v.committed_load_cases + v.candidate_load_cases))
      (validation_error "CANDIDATE_LOAD_EXCEEDS_VEHICLE_CAPACITY")
  guard (is_contiguous 1 v.stops) (validation_error "CANDIDATE_STOP_SEQUENCE_NOT_CONTIGUOUS")
  seen' ← check_stops v.vehicle_id v.stops seen
  check_vehicles vehicles seen'

-- `_candidate_arithmetic_holds`
unfoldable pub validate_next_day : CreateNextDayDraftPayload → Result (Unit {0})
validate_next_day p = do
  seen ← check_vehicles p.candidate_vehicles ([], [])
  raise_if
      (any (λ (d : NextDayUnassignedDemandPayload). contains d.shortfall_id seen.1)
        p.unassigned_demand)
      (validation_error "SHORTFALL_BOTH_SCHEDULED_AND_UNASSIGNED")

module _ (x : Environment) where
  -- `_source_and_constants_are_bound`; the instant carries its time zone by its type.
  unfoldable pub validate_evidence : ProcessPartnerEvidencePayload → Result (Unit {0})
  validate_evidence p = do
    guard (x.sha256_hex p.source_text == p.source_sha256)
        (validation_error "PARTNER_EVIDENCE_SOURCE_HASH_MISMATCH")
    guard (p.event_type == "PARTNER_CUSTODY_EVIDENCE_RECEIVED")
        (validation_error "PARTNER_EVIDENCE_EVENT_TYPE_INVALID")
    guard (p.callback_provenance == "AUTHENTICATED_PARTNER_CALLBACK")
        (validation_error "PARTNER_CALLBACK_PROVENANCE_INVALID")

  -- `validated_payload`: the validators of the model that the command type selects. The nested
  -- proposal of partner evidence is replaced by its normalised form.
  unfoldable pub validated_payload : Payload → Result Payload
  validated_payload (persist_repair_proposal p) = do
    validate_proposal p
    ok (persist_repair_proposal p)
  validated_payload (create_next_day_draft p) = do validate_next_day p; ok (create_next_day_draft p)
  validated_payload (process_partner_evidence p) = do
    q ← normalize_proposal p.proposal
    validate_evidence p
    ok (process_partner_evidence (record p { proposal = q }))
  validated_payload p = ok p
