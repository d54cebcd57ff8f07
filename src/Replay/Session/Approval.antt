-- ===== src/Replay/Session/Approval.antt =====
-- tools/replay/session.py: `ReplaySession.approve`, the one human gate.
use full_shelf.Prelude.{
  ℕ, String, Bool, true, false, ◌&&◌, not, ◌+◌, ◌==◌, Option, none, some, [], ◌∷◌, nat_eq,
  if◌then◌else◌,
}
use full_shelf.Ledger.Json.{Json, obj, get_text}
use full_shelf.Replay.Events.{Envelope, synthetic_operator, human_gate_sequence}
use full_shelf.Replay.Binding.{binding_matches, canonical_binding}
use full_shelf.Replay.Frames.{update_last}
use full_shelf.Replay.Session.{
  Mode, playing, paused_human_gate, Reply, refused, key_error, granted, ApprovalReceipt, Session,
  StateView, state_locked, commit_locked,
}

-- An answer of `approve`: the receipt, and whether the request was a duplicate.
pub record Approved : Type 0 where
  pub receipt : ApprovalReceipt
  pub duplicate : Bool
  pub state : StateView

unfoldable pub set_receipt : String → Envelope ℕ → Envelope ℕ
set_receipt receipt_id frame = record frame { receipt_refs = receipt_id ∷ [] }

unfoldable pub resume_mode : Mode → Mode
resume_mode paused_human_gate = playing
resume_mode mode = mode

-- Event 9 carries the receipt; a session that waits at the gate plays on.
unfoldable pub record_approval :
    ApprovalReceipt → Session × Reply (Envelope ℕ) → Session × Reply Approved
unfolding set_receipt resume_mode state_locked update_last
record_approval receipt (s, granted frame) =
    let after = record s {
      emitted = update_last (set_receipt receipt.receipt_id) s.emitted;
      mode = resume_mode s.mode;
    } in
    (after, granted (record { receipt = receipt; duplicate = false; state = state_locked after }))
record_approval receipt (s, refused status code) = (s, refused status code)
record_approval receipt (s, key_error) = (s, key_error)

unfoldable pub make_approval : String → String → String → String → ApprovalReceipt
unfolding canonical_binding
make_approval canonical_hash receipt_id key now = record {
  receipt_id = receipt_id;
  idempotency_key = key;
  plan_diff_hash = canonical_hash;
  actor = synthetic_operator;
  recorded_at = now;
  binding = canonical_binding;
}

unfoldable pub approve_first :
    String → String → String → String → Bool → Session → Session × Reply Approved
unfolding record_approval make_approval commit_locked
approve_first canonical_hash receipt_id now key matches s =
    if not matches
    then (s, refused 409 "APPROVAL_BINDING_MISMATCH")
    else if not (nat_eq (1 + s.cursor) human_gate_sequence)
    then (s, refused 409 "APPROVAL_NOT_PERMITTED_AT_CURSOR")
    else let receipt = make_approval canonical_hash receipt_id key now in
      record_approval receipt
        (commit_locked now human_gate_sequence (record s { approval = some receipt }))

unfoldable pub approve_again : String → Bool → ApprovalReceipt → Session → Session × Reply Approved
unfolding state_locked
approve_again key matches prior s =
    if prior.idempotency_key == key && matches
    then (s, granted (record { receipt = prior; duplicate = true; state = state_locked s }))
    else if not matches
    then (s, refused 409 "APPROVAL_BINDING_MISMATCH")
    else (s, refused 409 "APPROVAL_ALREADY_RECORDED")

unfoldable pub approve_locked :
    String
    → String
    → String
    → String
    → Bool
    → Session
    → Option ApprovalReceipt
    → Session × Reply Approved
unfolding approve_first approve_again
approve_locked canonical_hash receipt_id now key matches s none =
    approve_first canonical_hash receipt_id now key matches s
approve_locked canonical_hash receipt_id now key matches s (some prior) =
    approve_again key matches prior s

-- The idempotency key: a text that is not empty.
unfoldable pub approve_keyed :
    String → String → String → Json → Session → Option String → Session × Reply Approved
unfolding approve_locked binding_matches
approve_keyed canonical_hash receipt_id now request s none =
    (s, refused 400 "IDEMPOTENCY_KEY_REQUIRED")
approve_keyed canonical_hash receipt_id now request s (some key) =
    if key == ""
    then (s, refused 400 "IDEMPOTENCY_KEY_REQUIRED")
    else approve_locked canonical_hash receipt_id now key (binding_matches canonical_hash request) s
        s.approval

unfoldable pub approve : String → String → String → Json → Session → Session × Reply Approved
unfolding approve_keyed get_text
approve canonical_hash receipt_id now (obj fields) s =
    approve_keyed canonical_hash receipt_id now (obj fields) s
      (get_text "idempotency_key" (obj fields))
approve canonical_hash receipt_id now _ s = (s, refused 400 "APPROVAL_BINDING_MALFORMED")
