-- ===== src/Replay/Session.antt =====
-- tools/replay/session.py: `ReplaySession`. Every operation returns the session after it, also when
-- it refuses; the clock and the fresh identifiers are arguments.
pub mod Approval
pub mod Branches
pub mod Steps
pub mod Sound
pub mod Commits
pub mod Playing
pub mod Signing
pub mod Invariant
pub mod Autoplay
pub mod Abstract
pub mod Liveness
pub mod Once
use full_shelf.Prelude.{
  ℕ, String, Bool, true, false, ◌&&◌, not, ◌+◌, ◌==◌, Option, none, some, List, [], ◌∷◌, ◌++◌, map,
  ltb, leb, nat_eq, is_none, if◌then◌else◌,
}
use full_shelf.Ledger.Json.{Json, obj, get_text}
use full_shelf.Replay.Events.{
  Actor, CanonicalEvent, Branch, Envelope, by_sequence, envelope, branch_envelope, branch_named,
  synthetic_operator, last_sequence, human_gate_sequence, activation_sequence, initial_cursor,
  first_sequence, branch_min_sequence,
}
use full_shelf.Replay.Binding.{binding_matches, canonical_binding}
use full_shelf.Replay.Frames.{update_last, frames_of, range_from}

pub data Mode : Type 0 where
  idle playing paused paused_human_gate complete : Mode

-- `ReplayError(status, code)`, the `KeyError` of a missing sequence, and the answer.
pub data Reply {ℓ} (A : Type ℓ) : Type ℓ where
  refused : ℕ → String → Reply A
  key_error : Reply A
  granted : A → Reply A

pub record ApprovalReceipt : Type 0 where
  pub receipt_id : String
  pub idempotency_key : String
  pub plan_diff_hash : String
  pub actor : Actor
  pub recorded_at : String
  pub binding : Json

pub record Session : Type 0 where
  pub session_id : String
  pub created_at : String
  pub cursor : ℕ
  pub mode : Mode
  pub approval : Option ApprovalReceipt
  pub branch : Option String
  pub branch_events : List (Envelope String)
  pub closed : Bool
  pub emitted : List (Envelope ℕ)

-- `state_locked`
pub record StateView : Type 0 where
  pub session_id : String
  pub cursor : ℕ
  pub mode : Mode
  pub approval_required : Bool
  pub approved : Bool
  pub branch : Option String

unfoldable pub mode_eq : Mode → Mode → Bool
mode_eq idle idle = true
mode_eq playing playing = true
mode_eq paused paused = true
mode_eq paused_human_gate paused_human_gate = true
mode_eq complete complete = true
mode_eq _ _ = false

-- `__init__`
unfoldable pub new_session : String → String → Session
unfolding frames_of range_from
new_session session_id created_at = record {
  session_id = session_id;
  created_at = created_at;
  cursor = initial_cursor;
  mode = idle;
  approval = none;
  branch = none;
  branch_events = [];
  closed = false;
  emitted = frames_of session_id created_at (range_from first_sequence initial_cursor);
}

unfoldable pub gate_is_open_locked : Session → Bool
gate_is_open_locked s = nat_eq (s.cursor + 1) human_gate_sequence && is_none s.approval

unfoldable pub state_locked : Session → StateView
unfolding gate_is_open_locked
state_locked s = record {
  session_id = s.session_id;
  cursor = s.cursor;
  mode = s.mode;
  approval_required = gate_is_open_locked s;
  approved = not (is_none s.approval);
  branch = s.branch;
}

unfoldable pub next_permitted_locked : Session → Option ℕ
next_permitted_locked s =
    if ltb last_sequence (1 + s.cursor)
    then none
    else if nat_eq (1 + s.cursor) human_gate_sequence && is_none s.approval
    then none
    else if nat_eq (1 + s.cursor) activation_sequence && is_none s.approval
    then none
    else some (1 + s.cursor)

-- The frame of the event that was looked up, appended.
unfoldable pub emit : String → ℕ → Session → Option CanonicalEvent → Session × Reply (Envelope ℕ)
unfolding envelope
emit now sequence s none = (s, key_error)
emit now sequence s (some e) = (
  record s { emitted = s.emitted ++ (envelope e s.session_id now ∷ []); cursor = sequence },
  granted (envelope e s.session_id now),
)

unfoldable pub commit_locked : String → ℕ → Session → Session × Reply (Envelope ℕ)
unfolding emit by_sequence
commit_locked now sequence s = emit now sequence s (by_sequence sequence)

-- `if self.cursor >= LAST_SEQUENCE: self.mode = COMPLETE`, after a commit that did not raise.
unfoldable pub complete_if_last : Session × Reply (Envelope ℕ) → Session × Reply (Envelope ℕ)
complete_if_last (s, granted frame) =
    (record s { mode = if leb last_sequence s.cursor then complete else s.mode }, granted frame)
complete_if_last (s, refused status code) = (s, refused status code)
complete_if_last (s, key_error) = (s, key_error)

unfoldable pub commit_next : String → Session → Option ℕ → Session × Reply (Envelope ℕ)
unfolding commit_locked complete_if_last
commit_next now s none =
    (record s { mode = paused_human_gate }, refused 409 "HUMAN_APPROVAL_REQUIRED")
commit_next now s (some sequence) = complete_if_last (commit_locked now sequence s)

unfoldable pub advance : String → Session → Session × Reply (Envelope ℕ)
unfolding commit_next next_permitted_locked
advance now s =
    if not (is_none s.branch)
    then (s, refused 409 "CANONICAL_ADVANCE_BLOCKED_IN_BRANCH")
    else if leb last_sequence s.cursor
    then (record s { mode = complete }, refused 409 "REPLAY_COMPLETE")
    else commit_next now s (next_permitted_locked s)

unfoldable pub start : Session → Session × Reply StateView
unfolding mode_eq state_locked
start s =
    if mode_eq s.mode complete
    then (s, refused 409 "REPLAY_COMPLETE")
    else (record s { mode = playing }, granted (state_locked (record s { mode = playing })))

unfoldable pub pause_mode : Mode → Mode
pause_mode playing = paused
pause_mode mode = mode

unfoldable pub pause : Session → Session × Reply StateView
unfolding pause_mode state_locked
pause s = (
  record s { mode = pause_mode s.mode },
  granted (state_locked (record s { mode = pause_mode s.mode })),
)

-- A tick answers with the frame, or with nothing where the session must stop.
unfoldable pub tick_reply : Session × Reply (Envelope ℕ) → Session × Reply (Option (Envelope ℕ))
tick_reply (s, granted frame) = (s, granted (some frame))
tick_reply (s, refused status code) = (s, granted none)
tick_reply (s, key_error) = (s, key_error)

unfoldable pub autoplay_step : String → Session → Session × Reply (Option (Envelope ℕ))
unfolding mode_eq commit_next next_permitted_locked tick_reply
autoplay_step now s =
    if not (mode_eq s.mode playing)
    then (s, granted none)
    else if leb last_sequence s.cursor
    then (record s { mode = complete }, granted none)
    else tick_reply (commit_next now s (next_permitted_locked s))
