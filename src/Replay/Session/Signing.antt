-- ===== src/Replay/Session/Signing.antt =====
-- The outcomes of `approve`: the session stays as it is, or event 9 is committed with the receipt.
use full_shelf.Prelude.{
  ℕ, String, ◌+◌, ◌≡◌, ◌==◌, refl, ap, sym, ◌∙◌, subst, true, false, Option, none, some, List, [],
  ◌∷◌, ◌++◌, nat_eq, Bool-cases, Option-cases, inl, inr, arith, eq_iff,
}
use full_shelf.Ledger.Json.{Json, obj, get, get_text}
use full_shelf.Replay.Events.{Envelope, human_gate_sequence}
use full_shelf.Replay.Binding.{binding_matches}
use full_shelf.Replay.Frames.{update_last}
use full_shelf.Replay.Session.{Session, ApprovalReceipt, Reply, refused, granted, state_locked}
use full_shelf.Replay.Session.Approval.{
  Approved, approve, approve_keyed, approve_locked, approve_first, approve_again, record_approval,
  make_approval, set_receipt, resume_mode,
}
use full_shelf.Replay.Session.Sound.{IsCanonical}
use full_shelf.Replay.Session.Commits.{commit_locked_lem}

update_last-append {ℓ} :
    {A : Type ℓ} (f : A → A) (xs : List A) (x : A)
    → update_last f (xs ++ (x ∷ [])) ≡ xs ++ (f x ∷ [])
unfolding update_last
update_last-append f [] x = refl
update_last-append f (y ∷ []) x = refl
update_last-append f (y ∷ z ∷ rest) x = ap (λ r. y ∷ r) (update_last-append f (z ∷ rest) x)

-- The session after an approval: the receipt is kept, and event 9 carries it.
abbrev pub signed : Session → ApprovalReceipt → Envelope ℕ → Session
signed s receipt frame = record s {
  approval = some receipt;
  emitted = s.emitted ++ (record frame { receipt_refs = receipt.receipt_id ∷ [] } ∷ []);
  cursor = human_gate_sequence;
  mode = resume_mode s.mode;
}

-- The answer to a request that is approved for the first time.
abbrev pub fresh : Session → ApprovalReceipt → Approved
fresh after receipt = record { receipt = receipt; duplicate = false; state = state_locked after }

abbrev pub again : Session → ApprovalReceipt → Approved
again s prior = record { receipt = prior; duplicate = true; state = state_locked s }

module _ (hash receipt_id now : String) where
  -- The three outcomes of a call: a refusal, the answer to a duplicate, and a new approval.
  pub data Answer (request : Json) (s : Session) : Session × Reply Approved → Type 0 where
    rejected : (status : ℕ) (code : String) → Answer request s (s, refused status code)
    repeated :
        (prior : ApprovalReceipt)
        → s.approval ≡ some prior
        → binding_matches hash request ≡ true
        → get_text "idempotency_key" request ≡ some prior.idempotency_key
        → (prior.idempotency_key == "") ≡ false
        → Answer request s (s, granted (again s prior))
    recorded :
        (receipt : ApprovalReceipt) (frame : Envelope ℕ)
        → IsCanonical frame
        → frame.sequence ≡ human_gate_sequence
        → s.approval ≡ none
        → 1 + s.cursor ≡ human_gate_sequence
        → binding_matches hash request ≡ true
        → get_text "idempotency_key" request ≡ some receipt.idempotency_key
        → (receipt.idempotency_key == "") ≡ false
        → receipt.receipt_id ≡ receipt_id
        → Answer request s
            (signed s receipt frame, granted (fresh (signed s receipt frame) receipt))

  first_outcome :
      (request : Json) (key : String) (s : Session)
      → s.approval ≡ none
      → get_text "idempotency_key" request ≡ some key
      → (key == "") ≡ false
      → Answer request s (approve_first hash receipt_id now key (binding_matches hash request) s)
  unfolding approve_first record_approval make_approval set_receipt
  first_outcome request key s unsigned keyed named =
      elim (Bool-cases (binding_matches hash request)) [
        | inr off ↦ rw off (rejected 409 "APPROVAL_BINDING_MISMATCH")
        | inl bound ↦ rw bound (elim (Bool-cases (nat_eq (1 + s.cursor) human_gate_sequence)) [
          | inr elsewhere ↦ rw elsewhere (rejected 409 "APPROVAL_NOT_PERMITTED_AT_CURSOR")
          | inl gate ↦
              let receipt = make_approval hash receipt_id key now in
              let done =
                commit_locked_lem now human_gate_sequence (record s { approval = some receipt })
                  (omega arith) (omega arith) in
              rw gate (
                subst (λ r. Answer request s (record_approval receipt r)) (sym (done.3))
                  (rw (update_last-append (set_receipt receipt_id) s.emitted (done.0)) (
                    recorded receipt (done.0) (done.1) (done.2) unsigned (ground arith) bound keyed
                      named refl)))
        ])
      ]

  again_outcome :
      (request : Json) (key : String) (s : Session) (prior : ApprovalReceipt)
      → s.approval ≡ some prior
      → get_text "idempotency_key" request ≡ some key
      → (key == "") ≡ false
      → Answer request s (approve_again key (binding_matches hash request) prior s)
  unfolding approve_again
  again_outcome request key s prior signed_ keyed named =
      elim (Bool-cases (prior.idempotency_key == key)) [
        | inr other ↦ rw other (elim (Bool-cases (binding_matches hash request)) [
          | inr off ↦ rw off (rejected 409 "APPROVAL_BINDING_MISMATCH")
          | inl bound ↦ rw bound (rejected 409 "APPROVAL_ALREADY_RECORDED")
        ])
        | inl same ↦ rw same (elim (Bool-cases (binding_matches hash request)) [
          | inr off ↦ rw off (rejected 409 "APPROVAL_BINDING_MISMATCH")
          | inl bound ↦ rw bound (
              repeated prior signed_ bound
                (keyed ∙ ap some (sym ((eq_iff prior.idempotency_key key).0 same)))
                (ap (λ k. k == "") ((eq_iff prior.idempotency_key key).0 same) ∙ named))
        ])
      ]

  locked_outcome :
      (request : Json) (key : String) (s : Session) (approval : Option ApprovalReceipt)
      → s.approval ≡ approval
      → get_text "idempotency_key" request ≡ some key
      → (key == "") ≡ false
      → Answer request s
          (approve_locked hash receipt_id now key (binding_matches hash request) s approval)
  unfolding approve_locked
  locked_outcome request key s none held keyed named = first_outcome request key s held keyed named
  locked_outcome request key s (some prior) held keyed named =
      again_outcome request key s prior held keyed named

  pub approve-Answer :
      (request : Json) (s : Session) → Answer request s (approve hash receipt_id now request s)
  unfolding approve approve_keyed
  approve-Answer (obj fields) s = elim (Option-cases (get_text "idempotency_key" (obj fields))) [
    | inl missing ↦ rw missing (rejected 400 "IDEMPOTENCY_KEY_REQUIRED")
    | inr (key, keyed) ↦ rw keyed (elim (Bool-cases (key == "")) [
      | inl empty ↦ rw empty (rejected 400 "IDEMPOTENCY_KEY_REQUIRED")
      | inr named ↦ rw named (locked_outcome (obj fields) key s s.approval refl keyed named)
    ])
  ]
  approve-Answer _ s = rejected 400 "APPROVAL_BINDING_MALFORMED"

  first_accepted :
      (key : String) (s : Session)
      → 1 + s.cursor ≡ human_gate_sequence
      → (receipt : ApprovalReceipt) × (frame : Envelope ℕ) × IsCanonical frame
        × (approve_first hash receipt_id now key true s
            ≡ (signed s receipt frame, granted (fresh (signed s receipt frame) receipt)))
  unfolding approve_first record_approval make_approval set_receipt
  first_accepted key s gate =
      let receipt = make_approval hash receipt_id key now in
      let done =
        commit_locked_lem now human_gate_sequence (record s { approval = some receipt })
          (omega arith) (omega arith) in
      let at_gate : nat_eq (1 + s.cursor) human_gate_sequence ≡ true = ground arith in
      (
        receipt,
        done.0,
        done.1,
        rw at_gate (
            ap (record_approval receipt) (done.3)
            ∙ rw (update_last-append (set_receipt receipt_id) s.emitted (done.0)) refl),
      )

  -- A request that binds the repair is accepted at the gate.
  pub approve-accepted :
      (request : Json) (key : String) (s : Session)
      → get_text "idempotency_key" request ≡ some key
      → (key == "") ≡ false
      → binding_matches hash request ≡ true
      → s.approval ≡ none
      → 1 + s.cursor ≡ human_gate_sequence
      → (receipt : ApprovalReceipt) × (frame : Envelope ℕ) × IsCanonical frame
        × (approve hash receipt_id now request s
            ≡ (signed s receipt frame, granted (fresh (signed s receipt frame) receipt)))
  unfolding approve approve_keyed approve_locked get_text get
  approve-accepted (obj fields) key s keyed named bound unsigned gate =
      let done = first_accepted key s gate in
      (
        done.0,
        done.1,
        done.2,
        rw (keyed, named, bound)
            (ap (approve_locked hash receipt_id now key true s) unsigned ∙ done.3),
      )
  approve-accepted _ key s keyed named bound unsigned gate = cc
