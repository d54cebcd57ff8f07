-- ===== src/Ledger/Execute.antt =====
-- ledger_executor.py: `execute`, with the replay, the denials and the receipt.
pub mod Outcomes
pub mod Replay
pub mod Access
use full_shelf.Prelude.{
  ℕ, ◌+◌, String, Bool, true, false, not, ◌&&◌, ◌||◌, Option, none, some, List, [], ◌∷◌, ◌==◌,
  contains, option_eq, is_none, concat, or_text, str_nat, if◌then◌else◌,
}
use full_shelf.Prelude.Errors.{
  Result, ok, err, value_error, permission_error, collision, ◌>>=◌, ◌>>◌, guard,
}
use full_shelf.Evidence.{Verdict, applied, denied}
use full_shelf.Ledger.Rows.{ReceiptRow}
use full_shelf.Ledger.Database.{Database, insert_receipts}
use full_shelf.Ledger.Commit.{Transaction, buffered, commit}
use full_shelf.Ledger.Payloads.{RecordRefusalPayload, ProcessPartnerEvidencePayload}
use full_shelf.Ledger.Commands.{
  Payload, save_plan_revision, persist_repair_approval, activate_approved_repair_plan,
  invalidate_plan, allocate_safe_stock, persist_coordinator, open_recall_incident,
  record_acknowledgment_hold, set_incident_status, activate_movement_barrier, record_refusal,
  create_next_day_draft, persist_repair_proposal, process_partner_evidence, command_type,
  LedgerCommand, Identity, Environment, Receipt, CommandExecutionResult,
}
use full_shelf.Ledger.Digests.{stable_receipt_id, request_fingerprint}
use full_shelf.Ledger.Validators.{validated_payload}
use full_shelf.Ledger.Queries.{active_revision, revision_status, find_receipt, receipt_of_row}
use full_shelf.Ledger.Apply.SavePlan.{apply_save_plan}
use full_shelf.Ledger.Apply.Repair.{apply_persist_approval, apply_activate, apply_invalidate}
use full_shelf.Ledger.Apply.Proposal.{apply_proposal}
use full_shelf.Ledger.Apply.Recall.{apply_coordinator, apply_open_recall}
use full_shelf.Ledger.Apply.Incidents.{apply_hold, apply_status, apply_barrier}
use full_shelf.Ledger.Apply.Recovery.{apply_allocate}
use full_shelf.Ledger.NextDay.Constraints.{draft_matches_authority}
use full_shelf.Ledger.NextDay.Draft.{apply_next_day}
use full_shelf.Ledger.Partner.{apply_partner_evidence}

-- `_ALLOWED_ROLES`: one role for each command type.
unfoldable pub allowed_role : Payload → String
allowed_role (invalidate_plan p) = "INCIDENT_COORDINATOR"
allowed_role (persist_coordinator p) = "INCIDENT_COORDINATOR"
allowed_role (open_recall_incident p) = "INCIDENT_COORDINATOR"
allowed_role (set_incident_status p) = "INCIDENT_COORDINATOR"
allowed_role (activate_movement_barrier p) = "INCIDENT_COORDINATOR"
allowed_role (record_refusal p) = "INCIDENT_COORDINATOR"
allowed_role (record_acknowledgment_hold p) = "PARTNER_OPERATIONS_AGENT"
allowed_role (process_partner_evidence p) = "PARTNER_OPERATIONS_AGENT"
allowed_role _ = "FULFILLMENT_RECOVERY_PLANNER"

abbrev pub needs_invalidated : Payload → Bool
needs_invalidated (allocate_safe_stock p) = true
needs_invalidated (record_refusal p) = true
needs_invalidated (set_incident_status p) = true
needs_invalidated (process_partner_evidence p) = true
needs_invalidated _ = false

abbrev pub is_next_day : Payload → Bool
is_next_day (create_next_day_draft p) = true
is_next_day _ = false

-- The first plan of a tenant may name the revision that it is about to create.
abbrev pub bootstraps : Payload → Option String → Bool
bootstraps (save_plan_revision p) (some expected) = p.revision == expected
bootstraps _ _ = false

-- The conditions on `expected_plan_revision`: true where the command may go on.
unfoldable pub revision_holds : Database → LedgerCommand → Bool
revision_holds db c =
    let active = active_revision db c.tenant_id in
    elim c.expected_plan_revision [
      | none ↦ true
      | some expected ↦
          let invalidated =
            option_eq (revision_status db c.tenant_id expected) (some "INVALIDATED_RECALL") in
          (if is_next_day c.payload || (needs_invalidated c.payload && is_none active)
            then invalidated
            else option_eq active (some expected))
          || (is_none active && bootstraps c.payload (some expected))
    ]

-- `payload.proposed_revision or payload.revision or …`, as far as the payload has such a field.
abbrev pub named_revision : Payload → Option String
named_revision (persist_repair_approval p) = some p.proposed_revision
named_revision (activate_approved_repair_plan p) = some p.proposed_revision
named_revision (persist_repair_proposal p) = some p.proposed_revision
named_revision (save_plan_revision p) = some p.revision
named_revision (invalidate_plan p) = some p.revision
named_revision (create_next_day_draft p) = some p.revision
named_revision _ = none

abbrev revision_text : Option String → String
revision_text none = "None"
revision_text (some r) = r

abbrev pub evidence_status : Verdict → String
evidence_status applied = "SUCCESS"
evidence_status denied = "DENIED"

abbrev pub evidence_message : Verdict → String
evidence_message applied = "PARTNER_CUSTODY_EVIDENCE_APPLIED"
evidence_message denied = "PARTNER_CUSTODY_EVIDENCE_DENIED"

module _ (x : Environment) where
  -- `_receipt`
  unfoldable pub make_receipt : LedgerCommand → String → String → ℕ → Option ℕ → String → Receipt
  make_receipt c plan_revision status mutations evidence message = record {
    tenant_id = c.tenant_id;
    receipt_id = stable_receipt_id x c;
    command_id = c.command_id;
    plan_revision_id = plan_revision;
    command_type = command_type c.payload;
    status = status;
    mutations_applied = mutations;
    evidence_mutations_applied = evidence;
    message = message;
    trace_id = c.trace_id;
    caller = none;
  }

  -- The row of `_insert_receipt`.
  unfoldable pub receipt_row : LedgerCommand → Identity → Receipt → ReceiptRow
  receipt_row c caller r = record {
    tenant_id = r.tenant_id;
    receipt_id = r.receipt_id;
    action_id = r.command_id;
    plan_revision_id = r.plan_revision_id;
    action_type = r.command_type;
    status = r.status;
    mutations_applied = r.mutations_applied;
    message = r.message;
    trace_id = r.trace_id;
    idempotency_key = c.idempotency_key;
    caller_subject = caller.subject;
    caller_email = caller.email;
    agent_role = c.agent_role;
    request_fingerprint = some (request_fingerprint x c);
    evidence_mutations_applied = r.evidence_mutations_applied;
  }

  abbrev pub Outcome : Type 0
  Outcome = Result (CommandExecutionResult × Transaction)

  -- The receipt goes into the buffer, and the result says how much was written.
  unfoldable pub finish : LedgerCommand → Identity → Receipt → ℕ → Transaction → Outcome
  finish c caller r additional t = ok (
    record { receipt = r; idempotent_replay = false; additional_mutations = additional },
    buffered (insert_receipts (receipt_row c caller r ∷ [])) t,
  )

  -- `_deny`
  unfoldable pub deny : LedgerCommand → Identity → Option String → String → Transaction → Outcome
  deny c caller active message t =
      finish c caller
        (make_receipt c (or_text active (or_text c.expected_plan_revision "NONE")) "DENIED" 0 none
          message)
        0 t

  -- The answer from a receipt that is there.
  unfoldable pub replay_of : Database → LedgerCommand → Payload → ReceiptRow → Option String → Bool
  replay_of db c (persist_repair_approval p) r none = false
  replay_of db c p r none = true
  replay_of db c (create_next_day_draft p) r (some stored) =
      stored == request_fingerprint x c || draft_matches_authority x db c p r
  replay_of db c p r (some stored) = stored == request_fingerprint x c

  unfoldable pub replay_error : Option String → Result CommandExecutionResult
  replay_error none = err (value_error "IDEMPOTENCY_KEY_COLLISION_UNBOUND_LEGACY_RECEIPT")
  replay_error (some stored) = err (collision "FINGERPRINT_MISMATCH")

  unfoldable pub replay : LedgerCommand → ReceiptRow → Database → Result CommandExecutionResult
  unfolding replay_of replay_error
  replay c r db =
      if replay_of db c c.payload r r.request_fingerprint
      then ok (record {
        receipt = receipt_of_row r;
        idempotent_replay = true;
        additional_mutations = 0;
      })
      else replay_error r.request_fingerprint

  -- `_apply`; the two types that `execute` handles before it are not supported here.
  unfoldable pub apply :
      LedgerCommand → Payload → Option String → Transaction → Result (ℕ × Transaction)
  apply c (save_plan_revision p) active t = apply_save_plan x c p active t
  apply c (persist_repair_approval p) active t = apply_persist_approval x c p t
  apply c (activate_approved_repair_plan p) active t = apply_activate x c p t
  apply c (invalidate_plan p) active t = apply_invalidate c p t
  apply c (allocate_safe_stock p) active t = apply_allocate c p t
  apply c (persist_coordinator p) active t = apply_coordinator x c p t
  apply c (open_recall_incident p) active t = apply_open_recall x c p t
  apply c (record_acknowledgment_hold p) active t = apply_hold x c p t
  apply c (set_incident_status p) active t = apply_status c p t
  apply c (activate_movement_barrier p) active t = apply_barrier x c p t
  apply c (create_next_day_draft p) active t = apply_next_day x c p t
  apply c (persist_repair_proposal p) active t = apply_proposal x c p active t
  apply c (record_refusal p) active t = err (value_error "UNSUPPORTED_COMMAND_TYPE")
  apply c (process_partner_evidence p) active t = err (value_error "UNSUPPORTED_COMMAND_TYPE")

  -- The end of `transaction_body`, behind the role and the revision.
  unfoldable pub dispatch : LedgerCommand → Identity → Payload → Transaction → Outcome
  dispatch c caller (record_refusal p) t =
      deny c caller (active_revision t.db c.tenant_id)
        (concat (
          p.reason
          ∷ ": subject="
          ∷ p.subject_id
          ∷ " affected_cases="
          ∷ str_nat p.affected_cases
          ∷ []))
        t
  dispatch c caller (process_partner_evidence p) t = do
    done ← apply_partner_evidence x c p (stable_receipt_id x c) t
    let revision =
        or_text (active_revision t.db c.tenant_id) (or_text c.expected_plan_revision "NONE")
    finish c caller
        (make_receipt c revision (evidence_status done.0) done.1 (some 1) (evidence_message done.0))
        (done.1 + 1) done.2
  dispatch c caller p t = do
    done ← apply c p (active_revision t.db c.tenant_id) t
    finish c caller
        (make_receipt c
          (or_text (named_revision p)
            (or_text (active_revision t.db c.tenant_id) (or_text c.expected_plan_revision "NONE")))
          "SUCCESS" done.0 none (concat (command_type p ∷ " committed" ∷ [])))
        done.0 done.1

  -- `transaction_body` where no receipt is there.
  unfoldable pub first_run : LedgerCommand → Identity → Transaction → Outcome
  first_run c caller t =
      let active = active_revision t.db c.tenant_id in
      if not (c.agent_role == allowed_role c.payload)
      then deny c caller none "AGENT_ROLE_NOT_AUTHORIZED_FOR_COMMAND" t
      else if not (revision_holds t.db c)
      then deny c caller active
          (concat (
            "STALE_PLAN_REVISION expected="
            ∷ revision_text c.expected_plan_revision
            ∷ " actual="
            ∷ revision_text active
            ∷ []))
          t
      else dispatch c caller c.payload t

  -- `transaction_body`, and the commit of `run_in_transaction`: an error leaves the database alone.
  abbrev pub transact :
      LedgerCommand
      → Identity
      → Database
      → Option ReceiptRow
      → Result (CommandExecutionResult × Database)
  transact c caller db (some r) = replay c r db >>= λ result. ok (result, db)
  transact c caller db none = do
    done ← first_run c caller (record { db = db; buffer = [] })
    db' ← commit done.1
    ok (done.0, db')

  unfoldable pub execute :
      List String → LedgerCommand → Identity → Database → Result (CommandExecutionResult × Database)
  execute allowed_tenant_ids command caller db = do
    guard (contains command.tenant_id allowed_tenant_ids)
        (permission_error "TENANT_SCOPE_NOT_AUTHORIZED")
    payload ← validated_payload x command.payload
    let c = record command { payload = payload }
    transact c caller db (find_receipt db c)
