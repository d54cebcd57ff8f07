-- ===== src/Replay/Session/Playing.antt =====
-- The calls that move along the canonical feed keep a session well formed.
use full_shelf.Prelude.{
  ℕ, String, ◌+◌, ◌≤◌, ◌<◌, ◌≡◌, refl, true, not, none, some, is_none, leb, nat_eq, arith,
  Bool-cases, inl, inr, ◌⊎◌, ◌&&◌,
}
use full_shelf.Replay.Events.{Envelope, last_sequence, human_gate_sequence}
use full_shelf.Replay.Session.{
  playing, paused_human_gate, complete, Session, Reply, granted, refused, next_permitted_locked,
  commit_next, complete_if_last, advance, autoplay_step, tick_reply, mode_eq,
}
use full_shelf.Replay.Session.Sound.{IsSound, IsCanonical}
use full_shelf.Replay.Session.Commits.{commit_locked_lem, extended, extended-IsSound}

-- Before the end of the day, what is permitted next is the next event, or nothing at the gate.
pub next_permitted_locked_lem :
    (s : Session)
    → IsSound s
    → s.cursor < last_sequence
    → ((next_permitted_locked s ≡ none)
        × (s.approval ≡ none)
        × (1 + s.cursor ≡ human_gate_sequence))
      ⊎ ((next_permitted_locked s ≡ some (1 + s.cursor))
          × (is_none s.approval ≡ true → 1 + s.cursor < human_gate_sequence))
unfolding next_permitted_locked
next_permitted_locked_lem s sound low =
    elim (Bool-cases (nat_eq (1 + s.cursor) human_gate_sequence && is_none s.approval)) [
      | inl gate ↦ inl (ground arith, ground arith, ground arith)
      | inr free ↦ inr (ground (arith, sound.gated), ground (arith, sound.gated))
    ]

-- What `advance` and a tick make of a session before the end of the day: it waits at the gate, or
-- has one more frame.
pub commit_next_lem :
    (now : String) (s : Session)
    → IsSound s
    → s.cursor < last_sequence
    → ((commit_next now s (next_permitted_locked s)
          ≡ (record s { mode = paused_human_gate }, refused 409 "HUMAN_APPROVAL_REQUIRED"))
        × (s.approval ≡ none)
        × (1 + s.cursor ≡ human_gate_sequence))
      ⊎ ((frame : Envelope ℕ) × IsCanonical frame
          × (frame.sequence ≡ 1 + s.cursor)
          × (commit_next now s (next_permitted_locked s) ≡ (extended s frame, granted frame))
          × (is_none s.approval ≡ true → 1 + s.cursor < human_gate_sequence))
unfolding commit_next complete_if_last
commit_next_lem now s sound low = elim (next_permitted_locked_lem s sound low) [
  | inl (shut, unsigned, gate) ↦ inl (rw shut refl, unsigned, gate)
  | inr (next, allowed) ↦
      let done = commit_locked_lem now (1 + s.cursor) s (omega arith) (omega arith) in
      inr (done.0, done.1, done.2, rw (next, done.3) refl, allowed)
]

pub gate-IsSound :
    (s : Session)
    → IsSound s
    → s.cursor < last_sequence
    → 1 + s.cursor ≡ human_gate_sequence
    → IsSound (record s { mode = paused_human_gate })
gate-IsSound s sound low gate = record {
  gapless = sound.gapless;
  authentic = sound.authentic;
  opened = sound.opened;
  ended = sound.ended;
  gated = sound.gated;
  isolated = sound.isolated;
  finished = ground arith;
  waiting = λ _. gate;
}

pub complete-IsSound :
    (s : Session) → IsSound s → last_sequence ≤ s.cursor → IsSound (record s { mode = complete })
complete-IsSound s sound high = record {
  gapless = sound.gapless;
  authentic = sound.authentic;
  opened = sound.opened;
  ended = sound.ended;
  gated = sound.gated;
  isolated = sound.isolated;
  finished = ground (arith, sound.ended);
  waiting = ground arith;
}

commit_next-IsSound :
    (now : String) (s : Session)
    → IsSound s
    → s.cursor < last_sequence
    → IsSound (commit_next now s (next_permitted_locked s)).0
commit_next-IsSound now s sound low = elim (commit_next_lem now s sound low) [
  | inl (e, _, gate) ↦ rw e (gate-IsSound s sound low gate)
  | inr (frame, canonical, next, e, allowed) ↦
      rw e (extended-IsSound s frame sound low allowed canonical next)
]

pub advance-IsSound : (now : String) (s : Session) → IsSound s → IsSound (advance now s).0
unfolding advance
advance-IsSound now s sound = elim (Bool-cases (not (is_none s.branch))) [
  | inl open_ ↦ rw open_ sound
  | inr closed_ ↦ rw closed_ (elim (Bool-cases (leb last_sequence s.cursor)) [
    | inl end_ ↦ rw end_ (complete-IsSound s sound (ground arith))
    | inr before ↦ rw before (commit_next-IsSound now s sound (ground arith))
  ])
]

pub tick_reply-fst : (r : _) → (tick_reply r).0 ≡ r.0
unfolding tick_reply
tick_reply-fst (s, granted frame) = refl
tick_reply-fst (s, refused status code) = refl
tick_reply-fst (s, Reply.key_error) = refl

pub autoplay_step-IsSound :
    (now : String) (s : Session) → IsSound s → IsSound (autoplay_step now s).0
unfolding autoplay_step
autoplay_step-IsSound now s sound = elim (Bool-cases (not (mode_eq s.mode playing))) [
  | inl still ↦ rw still sound
  | inr plays ↦ rw plays (elim (Bool-cases (leb last_sequence s.cursor)) [
    | inl end_ ↦ rw end_ (complete-IsSound s sound (ground arith))
    | inr before ↦
        rw (before, tick_reply-fst (commit_next now s (next_permitted_locked s)))
          (commit_next-IsSound now s sound (ground arith))
  ])
]
