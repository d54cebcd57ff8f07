-- ===== src/Security/Approvals/Signed.antt =====
-- An approval that is signed verifies until it expires.
use full_shelf.Prelude.{
  ℕ, ◌<◌, ◌≡◌, refl, subst, ap, ◌∙◌, String, true, not, ◌==◌, eq_refl, Option, none, some, leb,
  arith,
}
use full_shelf.Prelude.Errors.{ok, >>=-ok, guard_passed, raise_if_passed, ok-injective, err-ok}
use full_shelf.Ledger.Commands.{Environment}
use full_shelf.Ledger.Digests.{compute_plan_diff_hash}
use full_shelf.Security.Approvals.{
  ApprovalEnvelope, Signing, create_signed_approval_envelope, verify_kms_approval_envelope,
  construct_signed_payload_string, unsigned_envelope, parse_expiry, signed_response, signature_ok,
  unexpired,
}

signed_response-ok : (o : Option String) (s : String) → signed_response o ≡ ok s → o ≡ some s
unfolding signed_response
signed_response-ok none s h = err-ok h
signed_response-ok (some a) s h = ap some (ok-injective h)

-- The digest of a diff does not read the hash in it.
module _ (x : Environment) (k : Signing) where
  -- The signature is over the envelope without it, which is the same text.
  payload_of_signed :
      (a : ApprovalEnvelope) (signature : String)
      → construct_signed_payload_string x k
          (record (unsigned_envelope x k a) { kms_signature = signature })
        ≡ construct_signed_payload_string x k (unsigned_envelope x k a)
  unfolding construct_signed_payload_string
  payload_of_signed a signature = refl

  signed-verify :
      (later expiry : ℕ) (a : ApprovalEnvelope) (signature : String)
      → ((key payload signature : String)
          → k.asymmetric_sign key (k.digest payload) ≡ some signature
          → k.signature_holds key signature payload ≡ true)
      → ((s : String) → k.b64decode (k.b64encode s) ≡ some s)
      → (a.kms_key_version == k.live_key) ≡ true
      → parse_expiry x k a.expires_at ≡ ok expiry
      → later < expiry
      → k.asymmetric_sign a.kms_key_version
          (k.digest (construct_signed_payload_string x k (unsigned_envelope x k a)))
        ≡ some signature
      → verify_kms_approval_envelope x k later
          (record (unsigned_envelope x k a) { kms_signature = k.b64encode signature })
        ≡ true
  unfolding verify_kms_approval_envelope unsigned_envelope compute_plan_diff_hash signature_ok
      unexpired
  signed-verify later expiry a signature holds decodes key expires before sent =
      let live : not (leb expiry later) ≡ true = ground arith in
      let held =
        holds a.kms_key_version (construct_signed_payload_string x k (unsigned_envelope x k a))
          signature sent in
      rw (key, expires, live, eq_refl (compute_plan_diff_hash x a.plan_diff), decodes signature)
        (ap (k.signature_holds a.kms_key_version signature)
            (payload_of_signed a (k.b64encode signature))
          ∙ held)

  -- An envelope that is created verifies at every instant before it expires, provided that a
  -- signature of the key service over the digest of a text holds for that text under the key that
  -- made it, and that base64 is read back as it was written.
  pub create-verify :
      (made later expiry : ℕ) (a e : ApprovalEnvelope)
      → ((key payload signature : String)
          → k.asymmetric_sign key (k.digest payload) ≡ some signature
          → k.signature_holds key signature payload ≡ true)
      → ((s : String) → k.b64decode (k.b64encode s) ≡ some s)
      → create_signed_approval_envelope x k made a ≡ ok e
      → parse_expiry x k e.expires_at ≡ ok expiry
      → later < expiry
      → verify_kms_approval_envelope x k later e ≡ true
  unfolding create_signed_approval_envelope unsigned_envelope
  create-verify made later expiry a e holds decodes h expires before =
      let (key, h1) = guard_passed (a.kms_key_version == k.live_key) _ _ h in
      let (t, _, h2) = >>=-ok (parse_expiry x k a.expires_at) _ h1 in
      let (_, h3) = raise_if_passed (leb t made) _ _ h2 in
      let (s, sent, h4) =
        >>=-ok
          (signed_response (
            k.asymmetric_sign a.kms_key_version
              (k.digest (construct_signed_payload_string x k (unsigned_envelope x k a)))))
          _ h3 in
      let (_, h5) = raise_if_passed (s == "") _ _ h4 in
      let e_is = ok-injective h5 in
      let expires_too = ap (λ e. parse_expiry x k e.expires_at) e_is ∙ expires in
      subst (λ e. verify_kms_approval_envelope x k later e ≡ true) e_is
        (signed-verify later expiry a s holds decodes key expires_too before
          (signed_response-ok _ _ sent))
