-- ===== src/Replay/Session/Steps.antt =====
-- The operations of a session as steps, and the sessions that they reach.
use full_shelf.Prelude.{String}
use full_shelf.Ledger.Json.{Json}
use full_shelf.Replay.Session.{Session, new_session, advance, start, pause, autoplay_step}
use full_shelf.Replay.Session.Approval.{approve}
use full_shelf.Replay.Session.Branches.{enter_branch, exit_branch, close}

-- One call, under the lock of the session. The digest of the canonical binding is a parameter.
pub data Step (hash : String) : Session → Session → Type 0 where
  advancing : (now : String) (s : Session) → Step hash s (advance now s).0
  starting : (s : Session) → Step hash s (start s).0
  pausing : (s : Session) → Step hash s (pause s).0
  ticking : (now : String) (s : Session) → Step hash s (autoplay_step now s).0
  approving :
      (receipt_id now : String) (request : Json) (s : Session)
      → Step hash s (approve hash receipt_id now request s).0
  entering : (name now : String) (s : Session) → Step hash s (enter_branch name now s).0
  leaving : (s : Session) → Step hash s (exit_branch s).0
  closing : (s : Session) → Step hash s (close s)

-- What calls make of a new session, in any number and order.
pub data Reached (hash : String) : Session → Type 0 where
  created : (session_id now : String) → Reached hash (new_session session_id now)
  stepped : {s t : Session} → Reached hash s → Step hash s t → Reached hash t

-- Any number of calls.
pub data Later (hash : String) : Session → Session → Type 0 where
  same : {s : Session} → Later hash s s
  after : {s t u : Session} → Step hash s t → Later hash t u → Later hash s u
