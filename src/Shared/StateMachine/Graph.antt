-- ===== src/Shared/StateMachine/Graph.antt =====
-- What the transition table and the machine of state-machine.ts guarantee.
use ops_mesh.Base.{◌≡◌, refl, ◌≢◌, ◌↔◌, ◌⊎◌, true, false, List, [], ◌∷◌, arith, any, ◌==◌}
use ops_mesh.Types.{
  IncidentStatus, open_, acknowledged, investigating, mitigated, resolved, escalated,
}
use ops_mesh.Shared.StateMachine.{
  status_eq, is_valid_transition, IncidentStateMachine, transition, is_terminal,
  incident_state_transitions, get_status,
}

-- The machine after a list of requested transitions, refused ones included.
unfoldable pub run : IncidentStateMachine → List IncidentStatus → IncidentStateMachine
run m [] = m
run m (to ∷ rest) = run (transition m to).0 rest

-- The lifecycle as a diagram: triage, escalation and resolution.
pub data Move : IncidentStatus → IncidentStatus → Type 0 where
  acknowledge :
      {s : IncidentStatus}
      → (s ≡ open_) ⊎ (s ≡ escalated) ⊎ (s ≡ investigating)
      → Move s acknowledged
  escalate : {s : IncidentStatus} → s ≢ escalated → s ≢ resolved → Move s escalated
  resolve : {s : IncidentStatus} → s ≢ resolved → Move s resolved
  investigate :
      {s : IncidentStatus}
      → (s ≡ acknowledged) ⊎ (s ≡ mitigated) ⊎ (s ≡ escalated)
      → Move s investigating
  mitigate : {s : IncidentStatus} → s ≡ investigating → Move s mitigated

Move-valid : {s t : IncidentStatus} → Move s t → is_valid_transition s t ≡ true
unfolding is_valid_transition
Move-valid (acknowledge h) = ground arith
Move-valid {s} (escalate h k) = ground arith
Move-valid {s} (resolve h) = ground arith
Move-valid (investigate h) = ground arith
Move-valid (mitigate h) = ground arith

valid-Move : (s t : IncidentStatus) → is_valid_transition s t ≡ true → Move s t
unfolding is_valid_transition
valid-Move s open_ h = absurd (ground arith)
valid-Move s acknowledged h = acknowledge (ground arith)
valid-Move s escalated h = escalate (ground arith) (ground arith)
valid-Move s resolved h = resolve (ground arith)
valid-Move s investigating h = investigate (ground arith)
valid-Move s mitigated h = mitigate (ground arith)

-- The transition table holds exactly the moves of the lifecycle diagram: acknowledging from OPEN,
-- ESCALATED or INVESTIGATING, escalating from any status but ESCALATED and RESOLVED, resolving from
-- any status but RESOLVED, investigating from ACKNOWLEDGED, MITIGATED or ESCALATED, and mitigating
-- from INVESTIGATING.
pub is_valid_transition_iff : (s t : IncidentStatus) → (is_valid_transition s t ≡ true) ↔ Move s t
is_valid_transition_iff s t = (valid-Move s t, Move-valid)

-- A status is terminal exactly when the table lets no transition leave it.
pub is_terminal_iff :
    (s : IncidentStatus)
    → (is_terminal s ≡ true) ↔ ((t : IncidentStatus) → is_valid_transition s t ≡ false)
is_terminal_iff s = (stuck s, λ h. terminal s (h resolved))
  where
    stuck :
        (s : IncidentStatus)
        → is_terminal s ≡ true
        → (t : IncidentStatus) → is_valid_transition s t ≡ false
    stuck s h t = unfold is_terminal is_valid_transition in ground arith

    terminal : (s : IncidentStatus) → is_valid_transition s resolved ≡ false → is_terminal s ≡ true
    terminal s h = unfold is_terminal is_valid_transition in ground arith

-- Every history of requests keeps a resolved machine resolved, and a machine that is not OPEN is
-- never taken back to OPEN.
pub run_absorbs :
    (m : IncidentStateMachine) (requests : List IncidentStatus)
    → ((get_status m ≡ resolved) → run m requests ≡ m)
      × ((get_status m ≢ open_) → get_status (run m requests) ≢ open_)
unfolding run get_status transition
run_absorbs m [] = (λ _. refl, λ h. h)
run_absorbs m (to ∷ rest) = (
  (λ h.
      let same : (transition m to).0 ≡ m = ground arith in
      ground (arith, same, (run_absorbs (transition m to).0 rest).0)),
  (λ h. (run_absorbs (transition m to).0 rest).1 (ground arith)),
)

-- Whatever the table of the constants module allows the state machine allows too. What the machine
-- allows and that table does not is exactly resolving from a status other than MITIGATED and
-- RESOLVED, and escalating from MITIGATED.
pub incident_state_transitions_differ :
    (s t : IncidentStatus)
    → (any (λ u. u == t) (incident_state_transitions s) ≡ true → is_valid_transition s t ≡ true)
      × (((any (λ u. u == t) (incident_state_transitions s) ≡ false)
            × (is_valid_transition s t ≡ true))
          ↔ (((t ≡ resolved) × (s ≢ resolved) × (s ≢ mitigated))
              ⊎ ((s ≡ mitigated) × (t ≡ escalated))))
unfolding is_valid_transition incident_state_transitions
incident_state_transitions_differ s t = (ground arith, ground arith)

-- Every history of requests keeps a machine that is not OPEN from being OPEN again.
pub run_leaves_open :
    (m : IncidentStateMachine) (requests : List IncidentStatus)
    → get_status m ≢ open_
    → get_status (run m requests) ≢ open_
run_leaves_open m requests left = (run_absorbs m requests).1 left

-- No history of requests changes a machine that is RESOLVED.
pub run_stays_resolved :
    (m : IncidentStateMachine) (requests : List IncidentStatus)
    → get_status m ≡ resolved
    → run m requests ≡ m
run_stays_resolved m requests h = (run_absorbs m requests).0 h

-- The two tables of transitions differ: what the state machine allows and the table of the constants
-- module does not is exactly resolving from a status other than MITIGATED and RESOLVED, and escalating
-- from MITIGATED.
pub incident_state_transitions_missing :
    (s t : IncidentStatus)
    → ((any (λ u. u == t) (incident_state_transitions s) ≡ false)
        × (is_valid_transition s t ≡ true))
      ↔ (((t ≡ resolved) × (s ≢ resolved) × (s ≢ mitigated)) ⊎ ((s ≡ mitigated) × (t ≡ escalated)))
incident_state_transitions_missing s t = (incident_state_transitions_differ s t).1
