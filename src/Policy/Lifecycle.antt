-- ===== src/Policy/Lifecycle.antt =====
-- packages/domain/full_shelf_domain/state_machines.py, and `IncidentLifecycleManager` of
-- packages/domain/full_shelf_domain/recall.py.
pub mod Chains
pub mod Agreement
use full_shelf.Prelude.{
  String, Bool, true, ◌&&◌, Option, none, some, List, [], ◌∷◌, ◌==◌, contains, any, if◌then◌else◌,
}
use full_shelf.Prelude.Errors.{Result, ok, value_error, ◌>>◌, guard, raise_if}
use full_shelf.Policy.Models.{
  PlanStatus, IncidentStatus, detected, scoping, containment_in_progress, partially_contained,
  contained, closed, resolved, plan_status_eq, incident_status_eq,
}

-- `PlanRevisionStateMachine.VALID_TRANSITIONS.get((revision, status), [])`
plan_transitions : String → PlanStatus → List (String × PlanStatus)
plan_transitions rev PlanStatus.active =
    if rev == "rev07"
    then ("rev08", PlanStatus.active) ∷ []
    else if rev == "rev08"
    then ("rev08", PlanStatus.invalidated_recall) ∷ []
    else []
plan_transitions rev _ = []

unfoldable pub can_transition_plan : String → PlanStatus → String → PlanStatus → Bool
unfolding plan_transitions plan_status_eq
can_transition_plan rev status next_rev next_status =
    any (λ allowed. allowed.0 == next_rev && plan_status_eq allowed.1 next_status)
      (plan_transitions rev status)

recall_transitions : IncidentStatus → List IncidentStatus
recall_transitions detected = scoping ∷ []
recall_transitions scoping = containment_in_progress ∷ []
recall_transitions containment_in_progress = partially_contained ∷ []
recall_transitions partially_contained = contained ∷ []
recall_transitions contained = closed ∷ []
recall_transitions _ = []

truck_transitions : IncidentStatus → List IncidentStatus
truck_transitions IncidentStatus.active = resolved ∷ []
truck_transitions _ = []

-- `IncidentStateMachine.VALID_TRANSITIONS.get((incident_type, status), [])`
incident_transitions : String → IncidentStatus → List IncidentStatus
unfolding recall_transitions truck_transitions
incident_transitions incident_type status =
    if incident_type == "TRUCK_BREAKDOWN"
    then truck_transitions status
    else if incident_type == "FOOD_SAFETY_RECALL"
    then recall_transitions status
    else []

unfoldable pub can_transition : String → IncidentStatus → IncidentStatus → Bool
unfolding incident_transitions incident_status_eq
can_transition incident_type status next =
    any (λ allowed. incident_status_eq allowed next) (incident_transitions incident_type status)

-- The `value` of a member, and `IncidentStatus(text)`.
unfoldable pub status_value : IncidentStatus → String
status_value detected = "DETECTED"
status_value scoping = "SCOPING"
status_value containment_in_progress = "CONTAINMENT_IN_PROGRESS"
status_value partially_contained = "PARTIALLY_CONTAINED"
status_value contained = "CONTAINED"
status_value closed = "CLOSED"
status_value IncidentStatus.active = "ACTIVE"
status_value resolved = "RESOLVED"

unfoldable pub parse_status : String → Option IncidentStatus
parse_status s =
    if s == "DETECTED"
    then some detected
    else if s == "SCOPING"
    then some scoping
    else if s == "CONTAINMENT_IN_PROGRESS"
    then some containment_in_progress
    else if s == "PARTIALLY_CONTAINED"
    then some partially_contained
    else if s == "CONTAINED"
    then some contained
    else if s == "CLOSED"
    then some closed
    else if s == "ACTIVE"
    then some IncidentStatus.active
    else if s == "RESOLVED"
    then some resolved
    else none

-- `allowed_transitions.get(current_state, [])` of `validate_transition`
manager_transitions : String → List String
manager_transitions state =
    if state == "DETECTED"
    then "SCOPING" ∷ []
    else if state == "SCOPING"
    then "CONTAINMENT_IN_PROGRESS" ∷ []
    else if state == "CONTAINMENT_IN_PROGRESS"
    then "PARTIALLY_CONTAINED" ∷ []
    else if state == "PARTIALLY_CONTAINED"
    then "CONTAINED" ∷ []
    else if state == "CONTAINED"
    then "CLOSED" ∷ []
    else []

-- `IncidentLifecycleManager.validate_transition`; the messages are abridged to their reason.
unfoldable pub validate_transition : String → String → Bool → Result Bool
unfolding manager_transitions
validate_transition current target has_unconfirmed = do
  raise_if (contains target ("CONTAINED" ∷ "CLOSED" ∷ []) && has_unconfirmed)
      (value_error "DOWNSTREAM_CUSTODY_UNCONFIRMED")
  guard (contains target (manager_transitions current)) (value_error "INVALID_TRANSITION_PATH")
  ok true
