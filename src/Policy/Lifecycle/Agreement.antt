-- ===== src/Policy/Lifecycle/Agreement.antt =====
-- The two lifecycle tables, of state_machines.py and of recall.py, against one another.
use full_shelf.Prelude.{Bool, true, false, ◌&&◌, ◌≡◌, arith, if◌then◌else◌}
use full_shelf.Prelude.Errors.{Result, ok, err, value_error}
use full_shelf.Policy.Models.{IncidentStatus, detected, contained, closed}
use full_shelf.Policy.Lifecycle.{can_transition, status_value, validate_transition}

abbrev pub claims_containment : IncidentStatus → Bool
claims_containment contained = true
claims_containment closed = true
claims_containment _ = false

-- What the manager answers, by the table of the state machine.
abbrev pub answer : IncidentStatus → IncidentStatus → Bool → Result Bool
answer s t unconfirmed =
    if claims_containment t && unconfirmed
    then err (value_error "DOWNSTREAM_CUSTODY_UNCONFIRMED")
    else if can_transition "FOOD_SAFETY_RECALL" s t
    then ok true
    else err (value_error "INVALID_TRANSITION_PATH")

-- The manager's `validate_transition` is the recall table of `IncidentStateMachine` behind one
-- more test: with unconfirmed downstream cases it refuses CONTAINED and CLOSED whatever
-- the current status, and it accepts any other transition exactly when the state machine does.
pub validate_transition_lem :
    (s t : IncidentStatus) (unconfirmed : Bool)
    → validate_transition (status_value s) (status_value t) unconfirmed ≡ answer s t unconfirmed
unfolding validate_transition status_value can_transition
validate_transition_lem detected t u =
    elim t
      as (λ t.
        validate_transition (status_value detected) (status_value t) u ≡ answer detected t u) [
          | detected ↦ ground arith
          | _ ↦ ground arith
        ]
validate_transition_lem s t u =
    elim t as (λ t. validate_transition (status_value s) (status_value t) u ≡ answer s t u) [
      | detected ↦ ground arith
      | _ ↦ ground arith
    ]
