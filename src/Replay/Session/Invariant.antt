-- ===== src/Replay/Session/Invariant.antt =====
-- Every session that calls can reach is well formed.
use full_shelf.Prelude.{
  ℕ, String, ◌+◌, ◌≡◌, refl, sym, subst, ◌∙◌, ◌++◌, [], ◌∷◌, ltb, ltb-false→le, Option-cases,
  Bool-cases, inl, inr, arith,
}
use full_shelf.Ledger.Json.{Json}
use full_shelf.Replay.Events.{
  Envelope, branch_named, branch_min_sequence, human_gate_sequence, by_sequence, canonical_events,
  morning_events, recall_events,
}
use full_shelf.Replay.Frames.{frames_of, range_from}
use full_shelf.Replay.Session.{
  Session, Reply, ApprovalReceipt, new_session, start, pause, pause_mode, mode_eq, complete,
}
use full_shelf.Replay.Session.Approval.{Approved, resume_mode}
use full_shelf.Replay.Session.Branches.{enter_branch, open_branch, exit_branch, close}
use full_shelf.Replay.Session.Steps.{
  Step, advancing, starting, pausing, ticking, approving, entering, leaving, closing, Reached,
  created, stepped,
}
use full_shelf.Replay.Session.Sound.{IsSound, IsCanonical, sequences}
use full_shelf.Replay.Session.Commits.{All-append, gapless-append}
use full_shelf.Replay.Session.Playing.{advance-IsSound, autoplay_step-IsSound}
use full_shelf.Replay.Session.Signing.{Answer, rejected, repeated, recorded, approve-Answer, signed}

new_session-IsSound : (session_id now : String) → IsSound (new_session session_id now)
unfolding new_session frames_of by_sequence canonical_events morning_events recall_events range_from
new_session-IsSound session_id now = record {
  gapless = refl;
  authentic = (
    (_, refl, refl, refl),
    (
      (_, refl, refl, refl),
      ((_, refl, refl, refl), ((_, refl, refl, refl), ((_, refl, refl, refl), tt))),
    ),
  );
  opened = omega arith;
  ended = omega arith;
  gated = refl;
  isolated = λ name e. cc;
  finished = ground arith;
  waiting = λ e. cc;
}

start-IsSound : (s : Session) → IsSound s → IsSound (start s).0
unfolding start mode_eq
start-IsSound s sound = elim (Bool-cases (mode_eq s.mode complete)) [
  | inl over ↦ rw over sound
  | inr goes ↦ rw goes record {
    gapless = sound.gapless;
    authentic = sound.authentic;
    opened = sound.opened;
    ended = sound.ended;
    gated = sound.gated;
    isolated = sound.isolated;
    finished = ground (arith, sound.finished);
    waiting = λ e. cc;
  }
]

pause-IsSound : (s : Session) → IsSound s → IsSound (pause s).0
unfolding pause pause_mode
pause-IsSound s sound = record {
  gapless = sound.gapless;
  authentic = sound.authentic;
  opened = sound.opened;
  ended = sound.ended;
  gated = sound.gated;
  isolated = sound.isolated;
  finished = ground (arith, sound.finished);
  waiting = ground (arith, sound.waiting);
}

signed-IsSound :
    (s : Session) (receipt : ApprovalReceipt) (frame : Envelope ℕ)
    → IsSound s
    → IsCanonical frame
    → frame.sequence ≡ human_gate_sequence
    → 1 + s.cursor ≡ human_gate_sequence
    → IsSound (signed s receipt frame)
unfolding resume_mode
signed-IsSound s receipt frame sound canonical next gate = record {
  gapless =
      subst
        (λ n.
          sequences (s.emitted ++ (record frame { receipt_refs = receipt.receipt_id ∷ [] } ∷ []))
          ≡ range_from 1 n)
        gate
        (gapless-append s.emitted (record frame { receipt_refs = receipt.receipt_id ∷ [] }) s.cursor
          sound.gapless (next ∙ sym gate));
  authentic =
      All-append IsCanonical s.emitted (record frame { receipt_refs = receipt.receipt_id ∷ [] })
        sound.authentic canonical;
  opened = omega arith;
  ended = omega arith;
  gated = refl;
  isolated = λ name e. absurd (omega (arith, sound.isolated name e));
  finished = ground (arith, sound.finished);
  waiting = ground (arith, sound.waiting);
}

Answer-IsSound :
    {hash receipt_id now : String} {request : Json} {s : Session} {r : Session × Reply Approved}
    → Answer hash receipt_id now request s r
    → IsSound s
    → IsSound r.0
Answer-IsSound (rejected status code) sound = sound
Answer-IsSound (repeated prior held bound keyed filled) sound = sound
Answer-IsSound {s} (recorded receipt frame canonical ninth unsigned gate bound keyed filled named)
      sound =
    signed-IsSound s receipt frame sound canonical ninth gate

enter_branch-IsSound :
    (name now : String) (s : Session) → IsSound s → IsSound (enter_branch name now s).0
unfolding enter_branch open_branch
enter_branch-IsSound name now s sound = elim (Option-cases (branch_named name)) [
  | inl unknown ↦ rw unknown sound
  | inr (spec, known) ↦ rw known (elim (Bool-cases (ltb s.cursor branch_min_sequence)) [
    | inl early ↦ rw early sound
    | inr late ↦ rw late record {
      gapless = sound.gapless;
      authentic = sound.authentic;
      opened = sound.opened;
      ended = sound.ended;
      gated = sound.gated;
      isolated = λ _ _. ltb-false→le s.cursor branch_min_sequence late;
      finished = sound.finished;
      waiting = sound.waiting;
    }
  ])
]

exit_branch-IsSound : (s : Session) → IsSound s → IsSound (exit_branch s).0
unfolding exit_branch
exit_branch-IsSound s sound = record {
  gapless = sound.gapless;
  authentic = sound.authentic;
  opened = sound.opened;
  ended = sound.ended;
  gated = sound.gated;
  isolated = λ name e. cc;
  finished = sound.finished;
  waiting = sound.waiting;
}

close-IsSound : (s : Session) → IsSound s → IsSound (close s)
unfolding close
close-IsSound s sound = record {
  gapless = sound.gapless;
  authentic = sound.authentic;
  opened = sound.opened;
  ended = sound.ended;
  gated = sound.gated;
  isolated = sound.isolated;
  finished = sound.finished;
  waiting = sound.waiting;
}

pub Step-IsSound : {hash : String} {s t : Session} → Step hash s t → IsSound s → IsSound t
Step-IsSound (advancing now s) sound = advance-IsSound now s sound
Step-IsSound (starting s) sound = start-IsSound s sound
Step-IsSound (pausing s) sound = pause-IsSound s sound
Step-IsSound (ticking now s) sound = autoplay_step-IsSound now s sound
Step-IsSound {hash} (approving receipt_id now request s) sound =
    Answer-IsSound (approve-Answer hash receipt_id now request s) sound
Step-IsSound (entering name now s) sound = enter_branch-IsSound name now s sound
Step-IsSound (leaving s) sound = exit_branch-IsSound s sound
Step-IsSound (closing s) sound = close-IsSound s sound

-- Whatever calls a new session gets, in any order: its feed is exactly the events 1 to the cursor, in order;
-- the cursor stays from 5 to 25; event 9 is in the feed exactly when an approval is recorded; a
-- proof branch is open only from event 22 on; the mode is COMPLETE exactly at event 25, and
-- PAUSED_HUMAN_GATE only at event 8.
pub Reached-IsSound : {hash : String} {s : Session} → Reached hash s → IsSound s
Reached-IsSound (created session_id now) = new_session-IsSound session_id now
Reached-IsSound (stepped before step) = Step-IsSound step (Reached-IsSound before)
