-- ===== src/Ledger/Partner.antt =====
-- ledger_executor.py, `_apply_partner_evidence`.
pub mod Custody
use full_shelf.Prelude.{
  ℕ, String, Bool, not, ◌&&◌, ◌||◌, Option, none, some, List, [], ◌∷◌, ◌==◌, nat_eq, select,
  count_where, update_where, if◌then◌else◌,
}
use full_shelf.Prelude.Errors.{
  Result, ok, err, value_error, collision, ◌>>=◌, ◌>>◌, guard, raise_if,
}
use full_shelf.Evidence.{
  PartnerCustodyConfirmationDetails, PartnerEvidenceDecision, Verdict, applied, denied, Authority,
  verify_partner_custody_proposal,
}
use full_shelf.Ledger.Json.{arr, texts}
use full_shelf.Ledger.Rows.{
  CustodyEdgeRow, CustodyNodeRow, IncidentRow, PartnerEvidenceRow, WorkItemRow,
}
use full_shelf.Ledger.Database.{Database, insert_partner_evidence}
use full_shelf.Ledger.Commit.{Transaction, buffered}
use full_shelf.Ledger.Payloads.{ProcessPartnerEvidencePayload}
use full_shelf.Ledger.Commands.{LedgerCommand, Environment}
use full_shelf.Ledger.Apply.Repair.{expect, only}

-- The columns of a prior evidence row under the same source event, against the new delivery.
abbrev pub check_prior :
    String
    → LedgerCommand
    → ProcessPartnerEvidencePayload
    → List PartnerEvidenceRow
    → Result (Unit {0})
check_prior receipt_id c p [] = ok tt
check_prior receipt_id c p (r ∷ rows) =
    if not (r.incident_id == c.incident_id && r.partner_id == p.partner_id)
    then err (collision "SOURCE_EVENT_SCOPE_MISMATCH")
    else if not (nat_eq r.source_occurred_at p.source_occurred_at)
        || (not (r.source_sha256 == p.source_sha256) || not (r.receipt_id == receipt_id))
    then err (collision "SOURCE_EVENT_CONTENT_MISMATCH")
    else err (collision "SOURCE_EVENT_RECEIPT_MISSING")

abbrev pub is_event_of : LedgerCommand → ProcessPartnerEvidencePayload → PartnerEvidenceRow → Bool
is_event_of c p r = r.tenant_id == c.tenant_id && r.source_event_id == p.source_event_id

abbrev pub is_incident_of : LedgerCommand → IncidentRow → Bool
is_incident_of c r = r.tenant_id == c.tenant_id && r.incident_id == c.incident_id

abbrev pub is_open_item : LedgerCommand → WorkItemRow → Bool
is_open_item c r =
    r.tenant_id == c.tenant_id
    && (r.incident_id == c.incident_id
        && (r.work_type == "PARTNER_CUSTODY_CONFIRMATION" && r.status == "OPEN"))

abbrev pub is_node : String → String → CustodyNodeRow → Bool
is_node tenant_id node_id r = r.tenant_id == tenant_id && r.node_id == node_id

abbrev pub is_edge_into : String → String → String → CustodyEdgeRow → Bool
is_edge_into tenant_id node_id lot_id r =
    r.tenant_id == tenant_id && (r.target_node_id == node_id && r.lot_id == lot_id)

-- What the reads of the transaction find: the verifier's arguments, and the row of the node.
pub record Found : Type 0 where
  pub authority : Authority
  pub node : CustodyNodeRow

module _ (x : Environment) (c : LedgerCommand) (p : ProcessPartnerEvidencePayload) where
  -- Every check before the verifier runs.
  unfoldable pub find_authority : String → Database → Result Found
  find_authority receipt_id db = do
    guard (p.event_type == "PARTNER_CUSTODY_EVIDENCE_RECEIVED")
        (value_error "PARTNER_EVIDENCE_EVENT_TYPE_INVALID")
    guard (p.callback_provenance == "AUTHENTICATED_PARTNER_CALLBACK")
        (value_error "PARTNER_CALLBACK_PROVENANCE_INVALID")
    guard (x.instant_day_text p.source_occurred_at == p.operating_day)
        (value_error "PARTNER_EVIDENCE_OPERATING_DAY_MISMATCH")
    guard (p.source_sha256 == x.sha256_hex p.source_text)
        (value_error "PARTNER_EVIDENCE_SOURCE_HASH_MISMATCH")
    check_prior receipt_id c p (select (is_event_of c p) db.partner_evidence_events)
    incident ← only (select (is_incident_of c) db.incidents) "PARTNER_EVIDENCE_INCIDENT_NOT_FOUND"
    guard
        (incident.status == "PARTIALLY_CONTAINED"
          && incident.terminal_state == "PARTIALLY_CONTAINED")
        (value_error "PARTNER_EVIDENCE_INCIDENT_STATE_INVALID")
    work ←
        only (select (is_open_item c) db.work_items) "EXACT_OPEN_PARTNER_CUSTODY_WORK_ITEM_REQUIRED"
    details ← expect (x.details_load work.details) "PARTNER_CUSTODY_WORK_ITEM_DETAILS_INVALID"
    guard (details.partner_id == p.partner_id)
        (value_error "AUTHENTICATED_PARTNER_WORK_ITEM_MISMATCH")
    guard (details.lot_id == incident.affected_lot_id)
        (value_error "WORK_ITEM_INCIDENT_LOT_MISMATCH")
    guard (details.operating_day == p.operating_day)
        (value_error "WORK_ITEM_OPERATING_DAY_MISMATCH")
    node ←
        only (select (is_node c.tenant_id details.custody_node_id) db.custody_nodes)
          "PARTNER_CUSTODY_NODE_NOT_FOUND"
    guard (node.acknowledgment_status == details.expected_acknowledgment_status)
        (value_error "PARTNER_CUSTODY_NODE_STATE_MISMATCH")
    edge ←
        only
          (select (is_edge_into c.tenant_id details.custody_node_id details.lot_id)
            db.custody_edges)
          "EXACT_PARTNER_CUSTODY_EDGE_REQUIRED"
    ok (record {
      authority = record {
        source_text = p.source_text;
        work_item_id = work.work_item_id;
        details = details;
        incident_id = c.incident_id;
        node_on_hand_cases = node.on_hand_cases;
        node_name = node.name;
        incoming_edge_cases = edge.case_count;
      };
      node = node;
    })

  abbrev pub is_confirmable : PartnerCustodyConfirmationDetails → CustodyNodeRow → Bool
  is_confirmable d r =
      is_node c.tenant_id d.custody_node_id r
      && (r.acknowledgment_status == d.expected_acknowledgment_status
          && nat_eq r.on_hand_cases d.expected_cases)

  abbrev pub is_completable : String → WorkItemRow → Bool
  is_completable work_item_id r = is_open_item c r && r.work_item_id == work_item_id

  -- The two updates of an applied decision.
  unfoldable pub confirm_custody : Authority → Database → Result Database
  confirm_custody a db = do
    let d = a.details
    guard (nat_eq (count_where (is_confirmable d) db.custody_nodes) 1)
        (value_error "CUSTODY_CONFIRMATION_UPDATE_PRECONDITION_FAILED")
    guard (nat_eq (count_where (is_completable a.work_item_id) db.work_items) 1)
        (value_error "PARTNER_CUSTODY_WORK_ITEM_UPDATE_PRECONDITION_FAILED")
    ok (record db {
      custody_nodes =
          update_where (is_confirmable d)
            (λ (r : CustodyNodeRow). record r {
              acknowledgment_status = d.requested_acknowledgment_status;
            })
            db.custody_nodes;
      work_items =
          update_where (is_completable a.work_item_id)
            (λ (r : WorkItemRow). record r { status = "COMPLETED" }) db.work_items;
    })

  abbrev pub decide : Verdict → Authority → Database → Result (ℕ × Database)
  decide denied a db = ok (0, db)
  decide applied a db = confirm_custody a db >>= λ db'. ok (2, db')

  abbrev pub verdict_text : Verdict → String
  verdict_text applied = "APPLIED"
  verdict_text denied = "DENIED"

  -- The evidence row, with the columns that a rule reads or that this function computes.
  evidence_row : String → PartnerEvidenceDecision → ℕ → PartnerEvidenceRow
  evidence_row receipt_id v domain_count = record {
    tenant_id = c.tenant_id;
    source_event_id = p.source_event_id;
    operating_day = p.operating_day;
    incident_id = c.incident_id;
    partner_id = p.partner_id;
    source_occurred_at = p.source_occurred_at;
    source_text = p.source_text;
    source_sha256 = p.source_sha256;
    proposal_sha256 = x.sha256_hex (x.dumps_compact (x.proposal_dump p.proposal));
    policy_decision = verdict_text v.decision;
    policy_reasons_json = x.dumps_compact (arr (texts v.reasons));
    receipt_id = receipt_id;
    domain_mutations_applied = domain_count;
    evidence_mutations_applied = 1;
  }

  -- The decision, the two counts (the second is 1) and the transaction.
  unfoldable pub apply_partner_evidence : String → Transaction → Result (Verdict × ℕ × Transaction)
  unfolding evidence_row
  apply_partner_evidence receipt_id t = do
    found ← find_authority receipt_id t.db
    let v = verify_partner_custody_proposal p.proposal found.authority
    done ← decide v.decision found.authority t.db
    ok (
      v.decision,
      done.0,
      buffered (insert_partner_evidence (evidence_row receipt_id v done.0 ∷ []))
          (record t { db = done.1 }),
    )
