-- ===== src/Replay/Session/Abstract.antt =====
-- What a session promises, without its feed, its modes and its branches: how far the day has come,
-- and whether the repair is approved.
use full_shelf.Ledger.Json.{Json}
use full_shelf.Prelude.{
  ℕ, String, ◌+◌, ◌<◌, ◌≡◌, ◌≢◌, Bool, true, false, not, is_none, inl, inr, Bool-cases,
  Option-cases, leb, ltb, leb-false→lt, arith,
}
use full_shelf.Replay.Events.{last_sequence, human_gate_sequence, branch_named, branch_min_sequence}
use full_shelf.Replay.Session.{
  Session, Reply, advance, autoplay_step, start, pause, mode_eq, complete, playing, commit_next,
  next_permitted_locked,
}
use full_shelf.Replay.Session.Approval.{Approved}
use full_shelf.Replay.Session.Branches.{enter_branch, open_branch, exit_branch, close}
use full_shelf.Replay.Session.Steps.{
  Step, advancing, starting, pausing, ticking, approving, entering, leaving, closing,
}
use full_shelf.Replay.Session.Sound.{IsSound}
use full_shelf.Replay.Session.Playing.{commit_next_lem, tick_reply-fst}
use full_shelf.Replay.Session.Signing.{Answer, rejected, repeated, recorded, approve-Answer}

pub record Progress : Type 0 where
  reached : ℕ
  approved : Bool

-- What a call may do: leave the day as it is, also go on by an event, or also sign.
pub data Call : Type 0 where
  resting forwarding signing : Call

-- `advance` and a tick go on, `approve` signs, and nothing else moves the day.
unfoldable pub call_of : {hash : String} {s t : Session} → Step hash s t → Call
call_of (advancing now s) = forwarding
call_of (ticking now s) = forwarding
call_of (approving receipt_id now request s) = signing
call_of (starting s) = resting
call_of (pausing s) = resting
call_of (entering name now s) = resting
call_of (leaving s) = resting
call_of (closing s) = resting

-- The day goes on event by event; only an approval commits event 9, and it commits nothing else.
pub data Move : Call → Progress → Progress → Type 0 where
  stay : {c : Call} {p : Progress} → Move c p p
  proceed :
      {n : ℕ} {b : Bool}
      → n < last_sequence
      → 1 + n ≢ human_gate_sequence
      → Move forwarding
          (record { reached = n; approved = b })
          (record { reached = 1 + n; approved = b })
  sign :
      {n : ℕ}
      → 1 + n ≡ human_gate_sequence
      → Move signing
          (record { reached = n; approved = false })
          (record { reached = human_gate_sequence; approved = true })

unfoldable pub progress : Session → Progress
progress s = record { reached = s.cursor; approved = not (is_none s.approval) }

commit_next-Move :
    (now : String) (s : Session)
    → IsSound s
    → s.cursor < last_sequence
    → Move forwarding (progress s) (progress (commit_next now s (next_permitted_locked s)).0)
unfolding progress
commit_next-Move now s sound low = elim (commit_next_lem now s sound low) [
  | inl (e, _, _) ↦ rw e stay
  | inr (frame, _, _, e, allowed) ↦ rw e (proceed low (ground (arith, sound.gated)))
]

advance-Move :
    (now : String) (s : Session)
    → IsSound s
    → Move forwarding (progress s) (progress (advance now s).0)
unfolding advance progress
advance-Move now s sound = elim (Bool-cases (not (is_none s.branch))) [
  | inl shown ↦ rw shown stay
  | inr canonical ↦ rw canonical (elim (Bool-cases (leb last_sequence s.cursor)) [
    | inl over ↦ rw over stay
    | inr before ↦
        rw before (commit_next-Move now s sound (leb-false→lt last_sequence s.cursor before))
  ])
]

autoplay_step-Move :
    (now : String) (s : Session)
    → IsSound s
    → Move forwarding (progress s) (progress (autoplay_step now s).0)
unfolding autoplay_step progress
autoplay_step-Move now s sound = elim (Bool-cases (not (mode_eq s.mode playing))) [
  | inl still ↦ rw still stay
  | inr plays ↦ rw plays (elim (Bool-cases (leb last_sequence s.cursor)) [
    | inl over ↦ rw over stay
    | inr before ↦
        rw (before, tick_reply-fst (commit_next now s (next_permitted_locked s)))
          (commit_next-Move now s sound (leb-false→lt last_sequence s.cursor before))
  ])
]

Answer-Move :
    {hash receipt_id now : String} {request : Json} {s : Session} {r : Session × Reply Approved}
    → Answer hash receipt_id now request s r
    → Move signing (progress s) (progress r.0)
unfolding progress
Answer-Move (rejected status code) = stay
Answer-Move (repeated prior held bound keyed filled) = stay
Answer-Move {s} (recorded receipt frame canonical ninth unsigned gate bound keyed filled named) =
    rw unsigned (sign gate)

start-Move : (s : Session) → Move resting (progress s) (progress (start s).0)
unfolding start progress
start-Move s = elim (Bool-cases (mode_eq s.mode complete)) [
  | inl over ↦ rw over stay
  | inr goes ↦ rw goes stay
]

enter_branch-Move :
    (name now : String) (s : Session)
    → Move resting (progress s) (progress (enter_branch name now s).0)
unfolding enter_branch open_branch progress
enter_branch-Move name now s = elim (Option-cases (branch_named name)) [
  | inl unknown ↦ rw unknown stay
  | inr (spec, known) ↦ rw known (elim (Bool-cases (ltb s.cursor branch_min_sequence)) [
    | inl early ↦ rw early stay
    | inr late ↦ rw late stay
  ])
]

-- Every call of a well formed session does what the abstract day allows to that call: `advance` and
-- a tick leave the day as it is or go on by one event that is not event 9, the human gate, and change
-- nothing of the approval; `approve` leaves the day as it is or, where event 9 is next and nothing was
-- approved, records the approval and commits event 9; every other call leaves the day as it is.
pub Step-Move :
    {hash : String} {s t : Session}
    → IsSound s
    → (step : Step hash s t) → Move (call_of step) (progress s) (progress t)
unfolding call_of progress pause exit_branch close
Step-Move sound (advancing now s) = advance-Move now s sound
Step-Move sound (starting s) = start-Move s
Step-Move sound (pausing s) = stay
Step-Move sound (ticking now s) = autoplay_step-Move now s sound
Step-Move {hash} sound (approving receipt_id now request s) =
    Answer-Move (approve-Answer hash receipt_id now request s)
Step-Move sound (entering name now s) = enter_branch-Move name now s
Step-Move sound (leaving s) = stay
Step-Move sound (closing s) = stay
