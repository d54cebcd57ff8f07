-- ===== src/Replay/Session/Liveness.antt =====
-- The day comes to its end: the human gate is the only stop, and one approval opens it.
use full_shelf.Prelude.{
  String, ◌≡◌, ap, ◌∙◌, true, false, ◌==◌, none, some, List, length, inl, arith,
}
use full_shelf.Ledger.Json.{Json, get_text}
use full_shelf.Replay.Events.{last_sequence}
use full_shelf.Replay.Binding.{binding_matches}
use full_shelf.Replay.Session.{Session, playing, complete, paused_human_gate}
use full_shelf.Replay.Session.Approval.{approve, resume_mode}
use full_shelf.Replay.Session.Steps.{approving, Reached}
use full_shelf.Replay.Session.Signing.{approve-accepted}
use full_shelf.Replay.Session.Invariant.{Reached-IsSound, Step-IsSound}
use full_shelf.Replay.Session.Autoplay.{ticks, ticks-complete}

-- A session that waits at the human gate goes on once a request comes that has an idempotency key
-- and binds the exact repair: sixteen ticks later it is complete, at event 25.
pub approve-ticks :
    (hash receipt_id now : String) (request : Json) (key : String) (nows : List String)
    {s : Session}
    → Reached hash s
    → s.mode ≡ paused_human_gate
    → get_text "idempotency_key" request ≡ some key
    → (key == "") ≡ false
    → binding_matches hash request ≡ true
    → length nows ≡ 16
    → ((ticks nows (approve hash receipt_id now request s).0).cursor ≡ last_sequence)
      × ((ticks nows (approve hash receipt_id now request s).0).mode ≡ complete)
unfolding resume_mode
approve-ticks hash receipt_id now request key nows {s} reached waits keyed named bound enough =
    let sound = Reached-IsSound reached in
    let gate = sound.waiting waits in
    let unsigned : s.approval ≡ none = ground (arith, sound.gated) in
    let done = approve-accepted hash receipt_id now request key s keyed named bound unsigned gate in
    let after = ap (λ r. r.0) (done.3) in
    let moved = ap (λ t. t.cursor) after in
    let plays : (approve hash receipt_id now request s).0.mode ≡ playing =
      ap (λ t. t.mode) after ∙ ap resume_mode waits in
    ticks-complete nows (approve hash receipt_id now request s).0
      (Step-IsSound (approving receipt_id now request s) sound) (inl plays) (omega (arith, moved))
      (omega (arith, moved))
