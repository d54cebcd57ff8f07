-- ===== src/Replay/Events/Types.antt =====
-- The records of tools/replay/events.py and the builder of the envelope.
use full_shelf.Prelude.{ℕ, String, Bool, Option, List}

pub record Actor : Type 0 where
  kind : String
  id : String

pub record Activity : Type 0 where
  severity : String
  headline : String
  detail : String
  action_required : Bool

-- `T(hh, mm)`: the wall clock of the operating day.
pub record Clock : Type 0 where
  hour : ℕ
  minute : ℕ

pub record CanonicalEvent : Type 0 where
  pub sequence : ℕ
  pub event_id : String
  pub event_type : String
  pub effective_at : Clock
  pub trigger_class : String
  pub actor : Actor
  pub incident_id : Option String
  pub activity : Activity
  pub fixture_key : Option String
  pub receipt_refs : List String

pub record Validation : Type 0 where
  pub status : String
  pub reasons : List String

pub record BranchEvent : Type 0 where
  pub ordinal : String
  pub event_id : String
  pub event_type : String
  pub effective_at : Clock
  pub actor : Actor
  pub activity : Activity
  pub validation : Validation

pub record Branch : Type 0 where
  pub fixture_key : String
  pub label : String
  pub unique : ℕ
  pub confirmed : ℕ
  pub unconfirmed : ℕ
  pub domain_mutations : ℕ
  pub evidence_mutations : ℕ
  pub events : List BranchEvent

-- An envelope: the sequence is a number in the canonical feed and a text on a branch. The fields
-- that are the same in every envelope are left out.
pub record Envelope (Sequence : Type 0) : Type 0 where
  pub event_id : String
  pub event_type : String
  pub session_id : String
  pub sequence : Sequence
  pub effective_at : Clock
  pub recorded_at : String
  pub trigger_class : String
  pub authority : String
  pub actor : Actor
  pub incident_id : Option String
  pub validation : Validation
  pub receipt_refs : List String
  pub activity_entry : Activity

-- `_a` and `_actor`.
abbrev pub info : String → String → String → Bool → Activity
info severity headline detail action_required = record {
  severity = severity;
  headline = headline;
  detail = detail;
  action_required = action_required;
}

abbrev pub actor_of : String → String → Actor
actor_of kind id = record { kind = kind; id = id }

abbrev pub at : ℕ → ℕ → Clock
at hour minute = record { hour = hour; minute = minute }

-- `CanonicalEvent(…)` and `BranchEvent(…)`
abbrev pub canonical_event :
    ℕ
    → String
    → String
    → Clock
    → String
    → Actor
    → Option String
    → Activity
    → Option String
    → List String
    → CanonicalEvent
canonical_event sequence event_id event_type effective_at trigger_class actor incident_id activity
      fixture_key receipt_refs =
    record {
      sequence = sequence;
      event_id = event_id;
      event_type = event_type;
      effective_at = effective_at;
      trigger_class = trigger_class;
      actor = actor;
      incident_id = incident_id;
      activity = activity;
      fixture_key = fixture_key;
      receipt_refs = receipt_refs;
    }

abbrev pub branch_event :
    String → String → String → Clock → Actor → Activity → Validation → BranchEvent
branch_event ordinal event_id event_type effective_at actor activity validation = record {
  ordinal = ordinal;
  event_id = event_id;
  event_type = event_type;
  effective_at = effective_at;
  actor = actor;
  activity = activity;
  validation = validation;
}
