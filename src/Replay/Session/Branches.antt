-- ===== src/Replay/Session/Branches.antt =====
-- tools/replay/session.py: the isolated proof branches of `ReplaySession`, its reads, and `close`.
use full_shelf.Prelude.{ℕ, String, Option, none, some, List, [], map, ltb, ◌-◌, true, if◌then◌else◌}
use full_shelf.Replay.Events.{
  Branch, Envelope, branch_envelope, branch_named, branch_min_sequence, initial_cursor,
}
use full_shelf.Replay.Frames.{take_frames}
use full_shelf.Replay.Session.{Session, Reply, refused, granted, StateView, state_locked}

-- The answer of `enter_branch`.
pub record Opened : Type 0 where
  branch : String
  label : String
  unique : ℕ
  confirmed : ℕ
  unconfirmed : ℕ
  domain_mutations : ℕ
  evidence_mutations : ℕ
  events : List (Envelope String)
  canonical_cursor : ℕ

unfoldable pub opened : String → Branch → Session → Opened
opened name spec s = record {
  branch = name;
  label = spec.label;
  unique = spec.unique;
  confirmed = spec.confirmed;
  unconfirmed = spec.unconfirmed;
  domain_mutations = spec.domain_mutations;
  evidence_mutations = spec.evidence_mutations;
  events = s.branch_events;
  canonical_cursor = s.cursor;
}

unfoldable pub open_branch : String → String → Session → Option Branch → Session × Reply Opened
unfolding branch_envelope opened
open_branch name now s none = (s, refused 404 "UNKNOWN_PROOF_BRANCH")
open_branch name now s (some spec) =
    if ltb s.cursor branch_min_sequence
    then (s, refused 409 "PROOF_BRANCH_NOT_AVAILABLE_YET")
    else let after = record s {
      branch = some name;
      branch_events = map (λ e. branch_envelope e s.session_id now) spec.events;
    } in
      (after, granted (opened name spec after))

unfoldable pub enter_branch : String → String → Session → Session × Reply Opened
unfolding open_branch branch_named
enter_branch name now s = open_branch name now s (branch_named name)

unfoldable pub exit_branch : Session → Session × Reply StateView
unfolding state_locked
exit_branch s =
    let after = record s { branch = none; branch_events = [] } in
    (after, granted (state_locked after))

unfoldable pub close : Session → Session
close s = record s { closed = true }

-- `feed`, `history` and `branch_feed` answer with copies.
unfoldable pub feed : Session → List (Envelope ℕ)
feed s = s.emitted

unfoldable pub history : Session → List (Envelope ℕ)
unfolding take_frames
history s = take_frames (initial_cursor - 1) s.emitted

unfoldable pub branch_feed : Session → List (Envelope String)
branch_feed s = s.branch_events
