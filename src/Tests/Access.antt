-- ===== src/Tests/Access.antt =====
-- Commands on the day of the fixtures: carried out, sent again, colliding, denied.
use full_shelf.Prelude.{
  String, true, false, not, ◌==◌, ◌≡◌, ◌&&◌, refl, none, some, [], ◌∷◌, contains,
}
use full_shelf.Prelude.Errors.{ok, err, collision}
use full_shelf.Ledger.Database.{Database, insert_rows, has_tenant}
use full_shelf.Ledger.Commit.{apply_mutation, apply_all, commit}
use full_shelf.Ledger.Commands.{
  LedgerCommand, Receipt, CommandExecutionResult, Payload, set_incident_status, command_type,
}
use full_shelf.Ledger.Json.{get_text, get, find_field}
use full_shelf.Ledger.Digests.{request_fingerprint}
use full_shelf.Ledger.Validators.{validated_payload}
use full_shelf.Ledger.Queries.{active_revision, find_receipt}
use full_shelf.Policy.Lifecycle.{can_transition, parse_status}
use full_shelf.Ledger.Apply.Incidents.{
  check_unconfirmed, terminal_state_of, move_incident, apply_status,
}
use full_shelf.Ledger.Execute.{
  allowed_role, revision_holds, make_receipt, receipt_row, finish, dispatch, first_run, apply,
  execute,
}
use full_shelf.Ledger.Execute.Replay.{resent, replayed, resend-execute, collision-execute}
use full_shelf.Ledger.Execute.Access.{
  is_authorized, is_refusal, denial, denied-execute, success-execute,
}
use full_shelf.Tests.Fixtures.{env, tenant, allowed, caller, other_caller, recall, base}

abbrev contain : Payload
contain = set_incident_status (record {
  incident_id = "INC-1";
  expected_status = "PARTIALLY_CONTAINED";
  new_status = "CONTAINED";
  terminal_state = "CONTAINED";
  unconfirmed_cases = some 0;
})

abbrev command : LedgerCommand
command = record {
  command_id = "CMD-1";
  idempotency_key = "KEY-1";
  tenant_id = tenant;
  incident_id = "INC-1";
  agent_role = "INCIDENT_COORDINATOR";
  expected_plan_revision = some "R1";
  trace_id = "TRACE-1";
  payload = contain;
}

abbrev receipt : Receipt
receipt = make_receipt env command "R1" "SUCCESS" 1 none "SET_INCIDENT_STATUS committed"

abbrev result : CommandExecutionResult
result = record { receipt = receipt; idempotent_replay = false; additional_mutations = 1 }

abbrev after : Database
after = record base {
  incidents = record recall { status = "CONTAINED"; terminal_state = "CONTAINED" } ∷ [];
  receipts = receipt_row env command caller receipt ∷ [];
}

command-runs : execute env allowed command caller base ≡ ok (result, after)
unfolding execute validated_payload find_receipt first_run allowed_role revision_holds dispatch
    apply apply_status parse_status can_transition check_unconfirmed terminal_state_of move_incident
    finish make_receipt receipt_row commit apply_all apply_mutation insert_rows has_tenant
    active_revision command_type
command-runs = refl

resend-execute_example :
    execute env allowed (resent "CMD-2" "TRACE-2" command) other_caller after
    ≡ ok (replayed command caller result, after)
resend-execute_example =
    resend-execute env allowed command caller base after result command-runs refl "CMD-2" "TRACE-2"
      other_caller

-- The key again, under another role.
abbrev other_command : LedgerCommand
other_command = record command { command_id = "CMD-3"; agent_role = "PARTNER_OPERATIONS_AGENT" }

contain-valid : validated_payload env contain ≡ ok contain
unfolding validated_payload
contain-valid = refl

prints-differ : (request_fingerprint env command == request_fingerprint env other_command) ≡ false
unfolding request_fingerprint get_text get find_field
prints-differ = refl

collision-execute_example :
    execute env allowed other_command other_caller after ≡ err (collision "FINGERPRINT_MISMATCH")
collision-execute_example =
    collision-execute env allowed command caller base after result command-runs refl other_command
      contain contain other_caller refl refl contain-valid contain-valid refl prints-differ

not-authorized : (is_authorized base other_command && not (is_refusal contain)) ≡ false
unfolding is_authorized allowed_role
not-authorized = refl

tenant-there : has_tenant base tenant ≡ true
unfolding has_tenant
tenant-there = refl

denied-execute_example :
    (revision message : String) × (execute env allowed other_command caller base
      ≡ ok (
        record {
          receipt = denial env other_command revision message;
          idempotent_replay = false;
          additional_mutations = 0;
        },
        record base {
          receipts =
              receipt_row env other_command caller (denial env other_command revision message) ∷ [];
        },
      ))
denied-execute_example =
    denied-execute env allowed other_command caller base contain refl contain-valid refl
      tenant-there not-authorized

success-execute_example :
    (contains tenant allowed ≡ true)
    × ((is_authorized base command && not (is_refusal contain)) ≡ true)
unfolding make_receipt
success-execute_example =
    success-execute env allowed command caller base after contain result contain-valid command-runs
      refl refl
