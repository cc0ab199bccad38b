-- ===== src/Shared/StateMachine.antt =====
-- packages/shared/src/utils/state-machine.ts: the lifecycle of an incident.
pub mod Graph
use ops_mesh.Base.{
  ◌≡◌, refl, Bool, true, false, not, Option, none, some, List, [], ◌∷◌, arith, any, Comparable,
  ◌==◌, if◌then◌else◌, String, ◌↔◌,
}
use ops_mesh.Types.{
  IncidentStatus, open_, acknowledged, investigating, mitigated, resolved, escalated,
}

-- `a === b` on the values of the enumeration
abbrev pub status_beq : IncidentStatus → IncidentStatus → Bool
status_beq open_ open_ = true
status_beq acknowledged acknowledged = true
status_beq investigating investigating = true
status_beq mitigated mitigated = true
status_beq resolved resolved = true
status_beq escalated escalated = true
status_beq _ _ = false

pub status_beq_iff : (a b : IncidentStatus) → (status_beq a b ≡ true) ↔ (a ≡ b)
status_beq_iff a b = ground arith

instance abbrev pub status_eq : Comparable IncidentStatus
status_eq = record { same = status_beq; same_iff = status_beq_iff }

-- The text of an enumeration value, as messages show it.
abbrev pub status_text : IncidentStatus → String
status_text open_ = "OPEN"
status_text acknowledged = "ACKNOWLEDGED"
status_text investigating = "INVESTIGATING"
status_text mitigated = "MITIGATED"
status_text resolved = "RESOLVED"
status_text escalated = "ESCALATED"

unfoldable pub incident_transitions : IncidentStatus → List IncidentStatus
incident_transitions open_ = acknowledged ∷ escalated ∷ resolved ∷ []
incident_transitions acknowledged = investigating ∷ escalated ∷ resolved ∷ []
incident_transitions investigating = mitigated ∷ escalated ∷ acknowledged ∷ resolved ∷ []
incident_transitions mitigated = resolved ∷ investigating ∷ escalated ∷ []
incident_transitions resolved = []
incident_transitions escalated = acknowledged ∷ investigating ∷ resolved ∷ []

unfoldable pub is_valid_transition : IncidentStatus → IncidentStatus → Bool
unfolding incident_transitions
is_valid_transition from to = any (λ s. s == to) (incident_transitions from)

pub record IncidentStateMachine : Type 0 where
  pub current_status : IncidentStatus

unfoldable pub new_machine : IncidentStatus → IncidentStateMachine
new_machine initial = record { current_status = initial }

unfoldable pub get_status : IncidentStateMachine → IncidentStatus
get_status m = m.current_status

unfoldable pub can_transition : IncidentStateMachine → IncidentStatus → Bool
unfolding is_valid_transition
can_transition m to = is_valid_transition m.current_status to

unfoldable pub transition : IncidentStateMachine → IncidentStatus → IncidentStateMachine × Bool
unfolding can_transition
transition m to =
    if not (can_transition m to) then (m, false) else (record m { current_status = to }, true)

unfoldable pub force_transition : IncidentStateMachine → IncidentStatus → IncidentStateMachine
force_transition m to = record m { current_status = to }

unfoldable pub get_valid_transitions : IncidentStatus → List IncidentStatus
unfolding incident_transitions
get_valid_transitions s = incident_transitions s

unfoldable pub is_terminal : IncidentStatus → Bool
is_terminal s = s == resolved

-- `{ valid, error? }`: no error, or the refused pair from which the message is made.
pub data TransitionCheck : Type 0 where
  valid : TransitionCheck
  invalid : IncidentStatus → IncidentStatus → List IncidentStatus → TransitionCheck

unfoldable pub validate_status_transition : IncidentStatus → IncidentStatus → TransitionCheck
unfolding is_valid_transition incident_transitions
validate_status_transition current new =
    if not (is_valid_transition current new)
    then invalid current new (incident_transitions current)
    else valid

-- packages/shared/src/constants/index.ts keeps a second table of the same name's meaning.
unfoldable pub incident_state_transitions : IncidentStatus → List IncidentStatus
incident_state_transitions open_ = acknowledged ∷ escalated ∷ []
incident_state_transitions acknowledged = investigating ∷ escalated ∷ []
incident_state_transitions investigating = mitigated ∷ escalated ∷ acknowledged ∷ []
incident_state_transitions mitigated = resolved ∷ investigating ∷ []
incident_state_transitions resolved = []
incident_state_transitions escalated = acknowledged ∷ investigating ∷ []
