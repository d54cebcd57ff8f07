-- ===== src/Security/Approvals.antt =====
-- packages/domain/full_shelf_domain/kms.py: the signature over an approval, and its verification.
pub mod Signed
use full_shelf.Prelude.{
  ℕ, String, Bool, true, false, ◌&&◌, not, ◌==◌, Option, none, some, [], ◌∷◌, leb, concat, str_nat,
  if◌then◌else◌,
}
use full_shelf.Prelude.Errors.{Result, ok, err, kms_error, ◌>>=◌, ◌>>◌, guard, raise_if}
use full_shelf.Policy.Models.{PlanDiff}
use full_shelf.Ledger.Commands.{Environment}
use full_shelf.Ledger.Digests.{compute_plan_diff_hash}

-- `ApprovalEnvelope` of models.py.
pub record ApprovalEnvelope : Type 0 where
  pub approval_id : String
  pub tenant_id : String
  pub operating_day : String
  pub authority_scope : String
  pub rev_id : String
  pub principal_id : String
  pub incident_id : String
  pub plan_id : String
  pub source_revision : String
  pub proposed_revision : String
  pub plan_diff : PlanDiff
  pub kms_key_version : String
  pub kms_signature : String
  pub expires_at : String

-- The answer of `datetime.fromisoformat`: an instant, or a time without a zone.
pub data Stamp : Type 0 where
  aware : ℕ → Stamp
  naive : Stamp

-- Cloud KMS and the libraries around it: the key that is allowed, reading a time, the digest,
-- signing (which may fail), base64, and the check of a signature with the public key of a key.
pub record Signing : Type 0 where
  pub live_key : String
  pub parse_time : String → Option Stamp
  pub digest : String → String
  pub asymmetric_sign : String → String → Option String
  pub b64encode : String → String
  pub b64decode : String → Option String
  pub signature_holds : String → String → String → Bool

parsed_expiry : Option Stamp → Result ℕ
parsed_expiry none = err (kms_error "APPROVAL_EXPIRATION_INVALID")
parsed_expiry (some naive) = err (kms_error "APPROVAL_EXPIRATION_TIMEZONE_REQUIRED")
parsed_expiry (some (aware t)) = ok t

signed_response : Option String → Result String
signed_response none = err (kms_error "MANAGED_KMS_SIGNING_FAILED")
signed_response (some signature) = ok signature

module _ (x : Environment) (k : Signing) where
  unfoldable pub construct_signed_payload_string : ApprovalEnvelope → String
  construct_signed_payload_string e = concat (
      e.approval_id
      ∷ ":"
      ∷ e.tenant_id
      ∷ ":"
      ∷ e.operating_day
      ∷ ":"
      ∷ e.authority_scope
      ∷ ":"
      ∷ e.rev_id
      ∷ ":"
      ∷ e.principal_id
      ∷ ":"
      ∷ e.incident_id
      ∷ ":"
      ∷ e.plan_id
      ∷ ":"
      ∷ e.source_revision
      ∷ ":"
      ∷ e.proposed_revision
      ∷ ":"
      ∷ e.plan_diff.reroute_order_id
      ∷ ":"
      ∷ str_nat e.plan_diff.reroute_cases
      ∷ ":"
      ∷ e.plan_diff.reroute_target_vehicle
      ∷ ":"
      ∷ e.plan_diff.pickup_order_id
      ∷ ":"
      ∷ str_nat e.plan_diff.pickup_cases
      ∷ ":"
      ∷ compute_plan_diff_hash x e.plan_diff
      ∷ ":"
      ∷ e.kms_key_version
      ∷ ":"
      ∷ e.expires_at
      ∷ [])

  -- `_parse_expiry`
  unfoldable pub parse_expiry : String → Result ℕ
  unfolding parsed_expiry
  parse_expiry value = parsed_expiry (k.parse_time value)

  -- The arguments of `create_signed_approval_envelope` are the envelope with nothing signed; its
  -- scope, the hash of its diff and its signature are computed here.
  unfoldable pub unsigned_envelope : ApprovalEnvelope → ApprovalEnvelope
  unsigned_envelope a = record a {
    authority_scope = concat (a.tenant_id ∷ "@" ∷ a.operating_day ∷ []);
    plan_diff = record a.plan_diff { plan_diff_hash = compute_plan_diff_hash x a.plan_diff };
    kms_signature = "";
  }

  unfoldable pub create_signed_approval_envelope : ℕ → ApprovalEnvelope → Result ApprovalEnvelope
  unfolding parse_expiry unsigned_envelope construct_signed_payload_string signed_response
  create_signed_approval_envelope now a = do
    guard (a.kms_key_version == k.live_key) (kms_error "KMS_KEY_VERSION_NOT_ALLOWED")
    expiry ← parse_expiry a.expires_at
    raise_if (leb expiry now) (kms_error "APPROVAL_ALREADY_EXPIRED")
    signature ← signed_response (
        k.asymmetric_sign a.kms_key_version
          (k.digest (construct_signed_payload_string (unsigned_envelope a))))
    raise_if (signature == "") (kms_error "MANAGED_KMS_EMPTY_SIGNATURE")
    ok (record (unsigned_envelope a) { kms_signature = k.b64encode signature })

  -- The body of the `try`: an exception of any kind is a refusal.
  signature_ok : ApprovalEnvelope → Option String → Bool
  signature_ok e none = false
  signature_ok e (some signature) =
      k.signature_holds e.kms_key_version signature (construct_signed_payload_string e)

  unexpired : ℕ → Result ℕ → Bool
  unexpired now (err e) = false
  unexpired now (ok expiry) = not (leb expiry now)

  unfoldable pub verify_kms_approval_envelope : ℕ → ApprovalEnvelope → Bool
  unfolding parse_expiry unexpired signature_ok
  verify_kms_approval_envelope now e =
      e.kms_key_version == k.live_key
      && (unexpired now (parse_expiry e.expires_at)
          && (e.plan_diff.plan_diff_hash == compute_plan_diff_hash x e.plan_diff
              && signature_ok e (k.b64decode e.kms_signature)))
