-- ===== src/Ledger/Digests.antt =====
-- The hashes that bind commands and approvals: `stable_receipt_id` and `request_fingerprint` of
-- ledger_commands.py, `compute_plan_diff_hash` of kms.py, and the storage authority of
-- authority.py.
use full_shelf.Prelude.{ℕ, String, Option, none, some, [], ◌∷◌, concat}
use full_shelf.Prelude.Errors.{Result, ok, err, value_error, ◌>>=◌, ◌>>◌, guard}
use full_shelf.Policy.Models.{PlanDiff}
use full_shelf.Ledger.Json.{Json, Fields, null, text, num, obj, end, field}
use full_shelf.Ledger.Payloads.{ProcessPartnerEvidencePayload, SignedRepairDiffPayload}
use full_shelf.Ledger.Commands.{
  Payload, process_partner_evidence, command_type, LedgerCommand, Environment,
}

-- An optional text in a document.
abbrev pub text_or_null : Option String → Json
text_or_null none = null
text_or_null (some s) = text s

-- `PlanDiff(source_revision=…, …, **payload.plan_diff.model_dump())`
unfoldable pub make_diff : String → String → String → SignedRepairDiffPayload → PlanDiff
make_diff source proposed hash d = record {
  source_revision = source;
  proposed_revision = proposed;
  reroute_order_id = d.reroute_order_id;
  reroute_cases = d.reroute_cases;
  reroute_target_vehicle = d.reroute_target_vehicle;
  pickup_order_id = d.pickup_order_id;
  pickup_cases = d.pickup_cases;
  plan_diff_hash = hash;
}

-- The document of the five fields of a signed diff, in the order of its keys.
unfoldable pub diff_fields : SignedRepairDiffPayload → Fields
diff_fields d = field "pickup_cases" (num d.pickup_cases) (
    field "pickup_order_id" (text d.pickup_order_id) (
      field "reroute_cases" (num d.reroute_cases) (
        field "reroute_order_id" (text d.reroute_order_id)
          (field "reroute_target_vehicle" (text d.reroute_target_vehicle) end))))

module _ (x : Environment) where
  -- `hexdigest()[:24].upper()`
  abbrev pub short_digest : String → String
  short_digest material = x.upper (x.prefix 24 (x.sha256_hex material))

  unfoldable pub stable_receipt_id : LedgerCommand → String
  stable_receipt_id c =
      concat ("RCT-" ∷ short_digest (concat (c.tenant_id ∷ "\0" ∷ c.idempotency_key ∷ [])) ∷ [])

  unfoldable pub compute_plan_diff_hash : PlanDiff → String
  compute_plan_diff_hash d = x.sha256_hex (
      x.dumps_compact (
        obj (
          field "pickup_cases" (num d.pickup_cases) (
            field "pickup_order_id" (text d.pickup_order_id) (
              field "proposed_revision" (text d.proposed_revision) (
                field "reroute_cases" (num d.reroute_cases) (
                  field "reroute_order_id" (text d.reroute_order_id) (
                    field "reroute_target_vehicle" (text d.reroute_target_vehicle)
                      (field "source_revision" (text d.source_revision) end)))))))))

  evidence_material : LedgerCommand → ProcessPartnerEvidencePayload → Json
  evidence_material c p = obj (
      field "event_type" (text p.event_type) (
        field "expected_plan_revision" (text_or_null c.expected_plan_revision) (
          field "incident_id" (text c.incident_id) (
            field "partner_id" (text p.partner_id) (
              field "source_event_id" (text p.source_event_id) (
                field "source_occurred_at" (text (x.instant_text p.source_occurred_at)) (
                  field "source_sha256" (text p.source_sha256)
                    (field "tenant_id" (text c.tenant_id) end))))))))

  command_material : LedgerCommand → Json
  command_material c = obj (
      field "agent_role" (text c.agent_role) (
        field "command_type" (text (command_type c.payload)) (
          field "expected_plan_revision" (text_or_null c.expected_plan_revision) (
            field "incident_id" (text c.incident_id) (
              field "payload" (x.payload_dump c.payload)
                (field "tenant_id" (text c.tenant_id) end))))))

  material : LedgerCommand → Payload → Json
  material c (process_partner_evidence p) = evidence_material c p
  material c _ = command_material c

  -- Neither the command identifier nor the trace identifier enters.
  unfoldable pub request_fingerprint : LedgerCommand → String
  unfolding material evidence_material command_material
  request_fingerprint c = x.sha256_hex (x.dumps_compact (material c c.payload))

  parsed_day : Option ℕ → Result ℕ
  parsed_day none = err (value_error "OPERATING_DAY_INVALID")
  parsed_day (some day) = ok day

  unfoldable pub operating_day_authority_id : String → String → Result String
  unfolding parsed_day
  operating_day_authority_id logical_tenant_id operating_day = do
    guard (x.is_tenant_id (x.strip logical_tenant_id)) (value_error "OPERATING_DAY_TENANT_INVALID")
    day ← parsed_day (x.parse_date operating_day)
    ok (concat (x.strip logical_tenant_id ∷ "-" ∷ x.compact_day day ∷ []))
