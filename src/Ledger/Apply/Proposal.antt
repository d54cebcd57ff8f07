-- ===== src/Ledger/Apply/Proposal.antt =====
-- ledger_executor.py, `_apply`: PERSIST_REPAIR_PROPOSAL.
use full_shelf.Prelude.{ℕ, ◌+◌, String, false, Option, some, [], ◌∷◌, option_eq, is_none}
use full_shelf.Prelude.Errors.{Result, ok, value_error, ◌>>◌, guard}
use full_shelf.Ledger.Json.{Json, bool, num, text, obj, end, field}
use full_shelf.Ledger.Rows.{PlanConstraintRow, InboundEventRow}
use full_shelf.Ledger.Database.{insert_plan_constraints, insert_inbound_events}
use full_shelf.Ledger.Commit.{Transaction, buffered}
use full_shelf.Ledger.Payloads.{PersistRepairProposalPayload}
use full_shelf.Ledger.Commands.{LedgerCommand, Environment}
use full_shelf.Ledger.Digests.{make_diff, diff_fields, compute_plan_diff_hash}
use full_shelf.Ledger.Queries.{revision_status}

module _ (x : Environment) where
  -- The constraint's document, its keys in order.
  proposal_document : PersistRepairProposalPayload → Json
  proposal_document p = obj (
      field "absorbing_vehicle_capacity_cases" (num p.absorbing_vehicle_capacity_cases) (
        field "absorbing_vehicle_committed_cases" (num p.absorbing_vehicle_committed_cases) (
          field "absorbing_vehicle_projected_cases"
            (num (p.absorbing_vehicle_committed_cases + p.plan_diff.reroute_cases))
            (field "activation_supported" (bool false) (
              field "authority" (text "AGENT_PROPOSAL") (
                field "failed_vehicle_id" (text p.vehicle_id) (
                  field "plan_diff" (obj (diff_fields p.plan_diff)) (
                    field "plan_diff_hash"
                      (text (
                        compute_plan_diff_hash x
                          (make_diff p.source_revision p.proposed_revision "" p.plan_diff)))
                      (field "proposal_id" (text p.proposal_id) (
                        field "proposed_revision" (text p.proposed_revision)
                          (field "source_event_id" (text p.source_event_id) end)))))))))))

  proposal_row : LedgerCommand → PersistRepairProposalPayload → PlanConstraintRow
  unfolding proposal_document
  proposal_row c p = record {
    tenant_id = c.tenant_id;
    plan_id = p.plan_id;
    revision = p.source_revision;
    constraint_type = "REPAIR_PROPOSAL";
    subject_id = p.proposal_id;
    details = x.dumps_compact (proposal_document p);
    priority = 1;
  }

  failure_event : LedgerCommand → PersistRepairProposalPayload → InboundEventRow
  failure_event c p = record {
    tenant_id = c.tenant_id;
    source_event_id = p.source_event_id;
    event_type = "VEHICLE_REFRIGERATION_FAILURE";
    status = "ACCEPTED";
    payload = x.dumps (
        obj (
          field "plan_id" (text p.plan_id) (
            field "proposal_id" (text p.proposal_id)
              (field "vehicle_id" (text p.vehicle_id) end))));
  }

  unfoldable pub apply_proposal :
      LedgerCommand
      → PersistRepairProposalPayload
      → Option String
      → Transaction
      → Result (ℕ × Transaction)
  unfolding proposal_row failure_event
  apply_proposal c p active t = do
    guard (option_eq (some p.source_revision) active)
        (value_error "PROPOSAL_SOURCE_REVISION_NOT_ACTIVE")
    guard (option_eq (revision_status t.db c.tenant_id p.source_revision) (some "ACTIVE"))
        (value_error "PROPOSAL_REQUIRES_AN_ACTIVE_SOURCE_REVISION")
    guard (is_none (revision_status t.db c.tenant_id p.proposed_revision))
        (value_error "PROPOSED_REVISION_ALREADY_EXISTS")
    ok (
      2,
      buffered (insert_inbound_events (failure_event c p ∷ []))
          (buffered (insert_plan_constraints (proposal_row c p ∷ [])) t),
    )
