-- ===== src/Tests/Guards.antt =====
-- A signed approval and a configured resolver, with libraries whose answers are easy to follow.
use full_shelf.Prelude.{
  true, ◌≡◌, ◌==◌, refl, arith, some, [], ◌∷◌, eq_iff, sym, some-injective, str_nat,
}
use full_shelf.Ledger.Json.{get_text, get, find_field}
use full_shelf.Ledger.Digests.{compute_plan_diff_hash}
use full_shelf.Security.Approvals.{
  unsigned_envelope, construct_signed_payload_string, ApprovalEnvelope, Signing, aware,
  create_signed_approval_envelope, verify_kms_approval_envelope, parse_expiry,
}
use full_shelf.Security.Approvals.Signed.{create-verify}
use full_shelf.Security.Scopes.{ScopeLibrary, AuthorityScope, Resolver, configured}
use full_shelf.Tests.Fixtures.{env}

-- The signature of a digest is the digest, which is the text.
abbrev signing : Signing
signing = record {
  live_key = "KEY";
  parse_time = λ s. some (aware 90);
  digest = λ s. s;
  asymmetric_sign = λ key digest. some digest;
  b64encode = λ s. s;
  b64decode = λ s. some s;
  signature_holds = λ key signature payload. signature == payload;
}

abbrev wanted : ApprovalEnvelope
wanted = record {
  approval_id = "APP-1";
  tenant_id = "bank";
  operating_day = "2026-07-15";
  authority_scope = "";
  rev_id = "R2";
  principal_id = "SUB-9";
  incident_id = "INC-1";
  plan_id = "PLAN-1";
  source_revision = "R1";
  proposed_revision = "R2";
  plan_diff = record {
    source_revision = "R1";
    proposed_revision = "R2";
    reroute_order_id = "ORD-1";
    reroute_cases = 30;
    reroute_target_vehicle = "VEH-1";
    pickup_order_id = "ORD-2";
    pickup_cases = 10;
    plan_diff_hash = "";
  };
  kms_key_version = "KEY";
  kms_signature = "";
  expires_at = "2026-07-16T00:00:00Z";
}

abbrev signed_envelope : ApprovalEnvelope
signed_envelope = record (unsigned_envelope env signing wanted) {
  kms_signature =
      construct_signed_payload_string env signing (unsigned_envelope env signing wanted);
}

create-verify_example : verify_kms_approval_envelope env signing 80 signed_envelope ≡ true
unfolding create_signed_approval_envelope construct_signed_payload_string compute_plan_diff_hash
    unsigned_envelope parse_expiry str_nat get_text get find_field
create-verify_example =
    create-verify env signing 50 80 90 wanted signed_envelope
      (λ key payload signature e. (eq_iff signature payload).1 (sym (some-injective e))) (λ s. refl)
      refl refl (omega arith)

abbrev library : ScopeLibrary
library = record {
  strip = λ s. s;
  is_compact_day = λ s. s == "20260715";
  is_audit_name = λ s. true;
}

abbrev resolver : Resolver
resolver = configured library "bank" "main" "audit" ("bank-audit" ∷ []) ("audit-" ∷ [])

abbrev audit_scope : AuthorityScope
audit_scope = record { tenant_id = "bank-audit"; database_id = "audit"; kind = "AUDIT_ISOLATED" }
