-- ===== src/Tests/Sessions.antt =====
-- A session of the demonstration: to the gate, through it with an approval, and to the end.
use full_shelf.Prelude.{ℕ, String, true, false, ◌≡◌, refl, ◌≤◌, ◌+◌, List, [], ◌∷◌, All, arith}
use full_shelf.Ledger.Json.{
  Json, obj, arr, text, num, field, end, item, nil, get_text, get, find_field,
}
use full_shelf.Replay.Events.{last_sequence, human_gate_sequence}
use full_shelf.Replay.Frames.{range_from}
use full_shelf.Replay.Binding.{binding_matches}
use full_shelf.Replay.Session.{
  Session, new_session, start, autoplay_step, complete, paused_human_gate, granted,
}
use full_shelf.Replay.Session.Approval.{Approved, approve, make_approval}
use full_shelf.Replay.Session.Steps.{
  starting, ticking, approving, Reached, created, stepped, same, after,
}
use full_shelf.Replay.Session.Sound.{IsSound, sequences}
use full_shelf.Replay.Session.Invariant.{Reached-IsSound}
use full_shelf.Replay.Session.Autoplay.{ticks, ticks-gate}
use full_shelf.Replay.Session.Abstract.{Move, signing, call_of, progress, Step-Move}
use full_shelf.Replay.Session.Signing.{again, fresh}
use full_shelf.Replay.Session.Liveness.{approve-ticks}
use full_shelf.Replay.Session.Once.{approve-resent}
use full_shelf.Replay.Stream.{Round, stream_after}
use full_shelf.Replay.Stream.Resume.{events_of, stream_after-resumes}

abbrev fresh_session : Session
fresh_session = new_session "fs-replay-1" "2026-08-14T15:05:00Z"

abbrev started : Session
started = (start fresh_session).0

abbrev started_reached : Reached "HASH" started
started_reached = stepped (created "fs-replay-1" "2026-08-14T15:05:00Z") (starting fresh_session)

-- Four ticks: events 6, 7 and 8, and then the gate.
abbrev tick_1 : Session
tick_1 = (autoplay_step "t1" started).0

abbrev tick_2 : Session
tick_2 = (autoplay_step "t2" tick_1).0

abbrev tick_3 : Session
tick_3 = (autoplay_step "t3" tick_2).0

abbrev at_gate : Session
at_gate = (autoplay_step "t4" tick_3).0

abbrev at_gate_reached : Reached "HASH" at_gate
at_gate_reached =
    stepped
      (stepped (stepped (stepped started_reached (ticking "t1" started)) (ticking "t2" tick_1))
        (ticking "t3" tick_2))
      (ticking "t4" tick_3)

abbrev action : String → ℕ → String → Json
action order_id cases disposition = obj (
    field "order_id" (text order_id)
      (field "cases" (num cases) (field "disposition" (text disposition) end)))

abbrev request : Json
request = obj (
    field "plan_id" (text "PLAN-2026-08-14") (
      field "incident_id" (text "INC-2210") (
        field "expected_revision" (text "rev07") (
          field "target_revision" (text "rev08") (
            field "actions"
              (arr
                (item (action "O202" 22 "TRUCK_2") (item (action "O203" 20 "PARTNER_PICKUP") nil)))
              (field "plan_diff_hash" (text "HASH")
                (field "idempotency_key" (text "KEY-1") end)))))))

abbrev approved : Session
approved = (approve "HASH" "RCT-1" "t5" request at_gate).0

abbrev sixteen : List String
sixteen =
    "a" ∷ "b" ∷ "c" ∷ "d" ∷ "e" ∷ "f" ∷ "g" ∷ "h" ∷ "i" ∷ "j" ∷ "k" ∷ "l" ∷ "m" ∷ "n" ∷ "o" ∷ "p"
    ∷ []

Reached-IsSound_example : IsSound approved
Reached-IsSound_example =
    Reached-IsSound (stepped at_gate_reached (approving "RCT-1" "t5" request at_gate))

ticks-gate_example :
    (1 + (ticks ("t1" ∷ "t2" ∷ "t3" ∷ "t4" ∷ []) started).cursor ≡ human_gate_sequence)
    × ((ticks ("t1" ∷ "t2" ∷ "t3" ∷ "t4" ∷ []) started).mode ≡ paused_human_gate)
unfolding start new_session
ticks-gate_example =
    ticks-gate ("t1" ∷ "t2" ∷ "t3" ∷ "t4" ∷ []) started (Reached-IsSound started_reached) refl refl
      (omega arith)

approve-ticks_example :
    ((ticks sixteen approved).cursor ≡ last_sequence) × ((ticks sixteen approved).mode ≡ complete)
unfolding autoplay_step start new_session get_text get find_field binding_matches
approve-ticks_example =
    approve-ticks "HASH" "RCT-1" "t5" request "KEY-1" sixteen at_gate_reached refl refl refl refl
      refl

Step-Move_example : Move signing (progress at_gate) (progress approved)
unfolding call_of
Step-Move_example =
    Step-Move (Reached-IsSound at_gate_reached) (approving "RCT-1" "t5" request at_gate)

abbrev approved_reached : Reached "HASH" approved
approved_reached = stepped at_gate_reached (approving "RCT-1" "t5" request at_gate)

abbrev resumed : Session
resumed = (autoplay_step "t6" approved).0

abbrev answered : Approved
answered = fresh approved (make_approval "HASH" "RCT-1" "KEY-1" "t5")

approve-resent_example :
    approve "HASH" "RCT-2" "t9" request resumed
    ≡ (resumed, granted (again resumed answered.receipt))
unfolding approve binding_matches get_text get find_field autoplay_step start new_session
approve-resent_example =
    approve-resent "HASH" "RCT-1" "t5" "RCT-2" "t9" request at_gate {answer = answered} refl
      (after (ticking "t6" approved) same)

-- A reader that resumes after event 6: a heartbeat, then what came while it waited, then the rest.
tick_1-IsSound : IsSound tick_1
tick_1-IsSound = Reached-IsSound (stepped started_reached (ticking "t1" started))

tick_2-IsSound : IsSound tick_2
tick_2-IsSound =
    Reached-IsSound (stepped (stepped started_reached (ticking "t1" started)) (ticking "t2" tick_1))

abbrev rounds : List Round
rounds =
    record { head = tick_1; woke = false; awake = tick_1 }
    ∷ record { head = tick_1; woke = true; awake = tick_2 }
    ∷ record { head = approved; woke = false; awake = approved }
    ∷ []

stream_after-resumes_example :
    (n : ℕ) × (sequences (events_of (stream_after 6 rounds)) ≡ range_from 7 n)
    × All (λ round. round.head.cursor ≤ 6 + n) rounds
unfolding approve binding_matches get_text get find_field autoplay_step start new_session
stream_after-resumes_example = stream_after-resumes 6 rounds (
  (tick_1-IsSound, tick_1-IsSound, refl, refl),
  (
    (tick_1-IsSound, tick_2-IsSound, refl, refl),
    ((Reached-IsSound approved_reached, Reached-IsSound approved_reached, refl, refl), tt),
  ),
)
