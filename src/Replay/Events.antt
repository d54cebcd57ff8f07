-- ===== src/Replay/Events.antt =====
-- tools/replay/events.py: the 25 canonical events, the two proof branches, the sequence numbers at
-- which the gates stand, and the envelope.
mod Types
mod Actors
mod Morning
mod Recall
mod Branches
pub mod Lookup
pub use Types.{Actor, Activity, Clock, CanonicalEvent, Validation, BranchEvent, Branch, Envelope}
pub use Actors.{fleet_inc, recall_inc, synthetic_operator}
unfoldable pub use Morning.{morning_events}
unfoldable pub use Recall.{recall_events}
unfoldable pub use Branches.{branch_named}
use Branches.{accepted}
use full_shelf.Prelude.{ℕ, String, Option, List, [], ◌∷◌, ◌++◌, map, first, select, nat_eq}

abbrev pub first_sequence : ℕ
first_sequence = 1

abbrev pub last_sequence : ℕ
last_sequence = 25

abbrev pub human_gate_sequence : ℕ
human_gate_sequence = 9

abbrev pub activation_sequence : ℕ
activation_sequence = 10

abbrev pub initial_cursor : ℕ
initial_cursor = 5

abbrev pub branch_min_sequence : ℕ
branch_min_sequence = 22

abbrev pub plan_id : String
plan_id = "PLAN-2026-08-14"

unfoldable pub canonical_events : List CanonicalEvent
unfolding morning_events recall_events
canonical_events = morning_events ++ recall_events

-- `BY_SEQUENCE.get(sequence)`
unfoldable pub by_sequence : ℕ → Option CanonicalEvent
unfolding canonical_events
by_sequence sequence = first (select (λ e. nat_eq e.sequence sequence) canonical_events)

-- `envelope(event, session_id=…, recorded_at=…)` of a canonical event.
unfoldable pub envelope : CanonicalEvent → String → String → Envelope ℕ
envelope e session_id recorded_at = record {
  event_id = e.event_id;
  event_type = e.event_type;
  session_id = session_id;
  sequence = e.sequence;
  effective_at = e.effective_at;
  recorded_at = recorded_at;
  trigger_class = e.trigger_class;
  authority = "CANONICAL";
  actor = e.actor;
  incident_id = e.incident_id;
  validation = accepted;
  receipt_refs = e.receipt_refs;
  activity_entry = e.activity;
}

-- `envelope(event, …, authority="ISOLATED", sequence=event.ordinal)` of an event of a branch.
unfoldable pub branch_envelope : BranchEvent → String → String → Envelope String
branch_envelope e session_id recorded_at = record {
  event_id = e.event_id;
  event_type = e.event_type;
  session_id = session_id;
  sequence = e.ordinal;
  effective_at = e.effective_at;
  recorded_at = recorded_at;
  trigger_class = "ISOLATED_PROOF";
  authority = "ISOLATED";
  actor = e.actor;
  incident_id = Option.none;
  validation = e.validation;
  receipt_refs = [];
  activity_entry = e.activity;
}
