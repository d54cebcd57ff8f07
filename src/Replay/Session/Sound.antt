-- ===== src/Replay/Session/Sound.antt =====
-- The well-formedness of a session, and that each commit keeps it.
use full_shelf.Prelude.{ℕ, ◌+◌, ◌≤◌, ◌≡◌, ◌↔◌, some, List, All, map, is_none, ltb}
use full_shelf.Replay.Events.{
  CanonicalEvent, by_sequence, Envelope, last_sequence, initial_cursor, branch_min_sequence,
  human_gate_sequence,
}
use full_shelf.Replay.Frames.{range_from}
use full_shelf.Replay.Session.{paused_human_gate, complete, Session}

-- A frame of the event that its sequence number names.
abbrev pub IsCanonical : Envelope ℕ → Type 0
IsCanonical frame =
    (e : CanonicalEvent) × (by_sequence frame.sequence ≡ some e)
    × (frame.event_id ≡ e.event_id)
    × (frame.activity_entry ≡ e.activity)

-- The sequence numbers of a feed.
abbrev pub sequences : List (Envelope ℕ) → List ℕ
sequences feed = map (λ frame. frame.sequence) feed

pub record IsSound (s : Session) : Type 0 where
  -- The feed is the events 1 to the cursor, in order, without a gap or a repetition.
  pub gapless : sequences s.emitted ≡ range_from 1 s.cursor
  pub authentic : All IsCanonical s.emitted
  pub opened : initial_cursor ≤ s.cursor
  pub ended : s.cursor ≤ last_sequence
  -- Event 9 is there exactly when an approval is.
  pub gated : is_none s.approval ≡ ltb s.cursor human_gate_sequence
  -- A branch is open only at the end of the day.
  pub isolated : (name : _) → s.branch ≡ some name → branch_min_sequence ≤ s.cursor
  pub finished : (s.mode ≡ complete) ↔ (s.cursor ≡ last_sequence)
  pub waiting : s.mode ≡ paused_human_gate → 1 + s.cursor ≡ human_gate_sequence
