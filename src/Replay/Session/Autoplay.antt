-- ===== src/Replay/Session/Autoplay.antt =====
-- Autoplay: how many ticks bring a session to the gate, and from there to the end of the day.
use full_shelf.Prelude.{
  ℕ, String, ◌+◌, ◌≤◌, ◌<◌, ◌≡◌, refl, subst, ap, ◌∙◌, true, false, none, List, [], ◌∷◌, length,
  ltb, leb, is_none, inl, inr, ◌⊎◌, arith,
}
use full_shelf.Replay.Events.{Envelope, last_sequence, human_gate_sequence}
use full_shelf.Replay.Session.{
  Mode, Session, playing, complete, paused_human_gate, autoplay_step, mode_eq,
  next_permitted_locked, commit_next,
}
use full_shelf.Replay.Session.Sound.{IsSound}
use full_shelf.Replay.Session.Commits.{extended}
use full_shelf.Replay.Session.Playing.{commit_next_lem, tick_reply-fst, autoplay_step-IsSound}

-- Ticks at these times.
unfoldable pub ticks : List String → Session → Session
ticks [] s = s
ticks (now ∷ later) s = ticks later (autoplay_step now s).0

ticks-step :
    (now : String) (later : List String) (s : Session) {t : Session}
    → (autoplay_step now s).0 ≡ t
    → ticks (now ∷ later) s ≡ ticks later t
unfolding ticks
ticks-step now later s e = ap (ticks later) e

playing-mode_eq : (m : Mode) → m ≡ playing → mode_eq m playing ≡ true
unfolding mode_eq
playing-mode_eq m plays = rw plays refl

tick_commits :
    (now : String) (s : Session)
    → s.mode ≡ playing
    → s.cursor < last_sequence
    → (autoplay_step now s).0 ≡ (commit_next now s (next_permitted_locked s)).0
unfolding autoplay_step
tick_commits now s plays low =
    let before : leb last_sequence s.cursor ≡ false = ground arith in
    rw
      (
        playing-mode_eq s.mode plays,
        before,
        tick_reply-fst (commit_next now s (next_permitted_locked s)),
      )
      refl

-- A tick of a session that plays.
tick_lem :
    (now : String) (s : Session)
    → IsSound s
    → s.mode ≡ playing
    → s.cursor < last_sequence
    → (((autoplay_step now s).0 ≡ record s { mode = paused_human_gate })
        × (1 + s.cursor ≡ human_gate_sequence)
        × (s.approval ≡ none))
      ⊎ ((frame : Envelope ℕ) × ((autoplay_step now s).0 ≡ extended s frame)
          × (is_none s.approval ≡ true → 1 + s.cursor < human_gate_sequence))
tick_lem now s sound plays low = elim (commit_next_lem now s sound low) [
  | inl (e, unsigned, gate) ↦ inl (tick_commits now s plays low ∙ ap (λ r. r.0) e, gate, unsigned)
  | inr (frame, canonical, next, e, allowed) ↦
      inr (frame, tick_commits now s plays low ∙ ap (λ r. r.0) e, allowed)
]

extended-plays :
    (s : Session) (frame : Envelope ℕ)
    → s.mode ≡ playing
    → s.cursor < last_sequence
    → ((extended s frame).mode ≡ playing) ⊎ ((extended s frame).cursor ≡ last_sequence)
extended-plays s frame plays low = ground arith

-- A session that plays past the gate comes to the end: after as many ticks as there are events left it
-- is complete, at event 25.
pub ticks-complete :
    (nows : List String) (s : Session)
    → IsSound s
    → (s.mode ≡ playing) ⊎ (s.cursor ≡ last_sequence)
    → human_gate_sequence ≤ s.cursor
    → s.cursor + length nows ≡ last_sequence
    → ((ticks nows s).cursor ≡ last_sequence) × ((ticks nows s).mode ≡ complete)
unfolding ticks
ticks-complete [] s sound plays past enough =
    let end_ : s.cursor ≡ last_sequence = omega arith in (end_, sound.finished.1 end_)
ticks-complete (now ∷ later) s sound (inr end_) past enough = absurd (omega arith)
ticks-complete (now ∷ later) s sound (inl plays) past enough =
    elim (tick_lem now s sound plays (omega arith)) [
      | inl (e, gate, _) ↦ absurd (omega arith)
      | inr (frame, e, allowed) ↦ rw (ticks-step now later s e) (
          ticks-complete later (extended s frame)
            (subst IsSound e (autoplay_step-IsSound now s sound))
            (extended-plays s frame plays (omega arith)) (omega arith) (omega arith))
    ]

-- No tick, no change.
ticks-none :
    (nows : List String) (s : Session)
    → length nows ≡ 0
    → 1 + s.cursor ≡ human_gate_sequence
    → s.mode ≡ paused_human_gate
    → (1 + (ticks nows s).cursor ≡ human_gate_sequence) × ((ticks nows s).mode ≡ paused_human_gate)
unfolding ticks
ticks-none [] s none_ gate waits = (gate, waits)
ticks-none (now ∷ later) s none_ gate waits = absurd (omega arith)

-- A session that plays before the gate stops there: after as many ticks as the gate is events away it
-- waits for the approval, at event 8.
pub ticks-gate :
    (nows : List String) (s : Session)
    → IsSound s
    → s.mode ≡ playing
    → s.cursor + length nows ≡ human_gate_sequence
    → s.cursor < human_gate_sequence
    → (1 + (ticks nows s).cursor ≡ human_gate_sequence) × ((ticks nows s).mode ≡ paused_human_gate)
unfolding ticks
ticks-gate [] s sound plays enough low = absurd (omega arith)
ticks-gate (now ∷ later) s sound plays enough low =
    elim (tick_lem now s sound plays (omega arith)) [
      | inl (e, gate, _) ↦
          let over : length later ≡ 0 = omega arith in
          rw (ticks-step now later s e)
            (ticks-none later (record s { mode = paused_human_gate }) over gate refl)
      | inr (frame, e, allowed) ↦
          let below : ltb s.cursor human_gate_sequence ≡ true = ground arith in
          let before : (1 + s.cursor < human_gate_sequence) = allowed (sound.gated ∙ below) in
          rw (ticks-step now later s e) (
            ticks-gate later (extended s frame)
              (subst IsSound e (autoplay_step-IsSound now s sound)) (ground arith) (omega arith)
              before)
    ]
