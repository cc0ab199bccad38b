-- ===== src/Escalation.antt =====
-- apps/worker/src/modules/escalation/escalation.worker.ts: which incidents are due for their next
-- escalation level, and the step that raises one.
pub mod Step
pub mod Keyed
pub mod Safety
pub mod StepUp
pub mod Acknowledged
pub mod Policies
pub mod Applied
use ops_mesh.Base.{
  ℕ, ◌+◌, ◌*◌, ◌≡◌, refl, Bool, true, false, not, Option, none, some, List, [], ◌∷◌, ◌++◌, String,
  ◌==◌, string_eq, nat_eq, if◌then◌else◌, ◌&&◌, ◌||◌, find, any, filter, take, leb, ltb, is_some,
  sort_by,
}
use ops_mesh.Types.{
  IncidentStatus, open_, acknowledged, investigating, mitigated, resolved, escalated,
}
use ops_mesh.Shared.StateMachine.{status_eq}
use ops_mesh.Db.{Db, IncidentRow, PolicyRow, StepRow, ServiceRow}

abbrev pub is_text : String → Option String → Bool
is_text t none = false
is_text t (some s) = s == t

-- What the worker takes from the language and the database: how `String(level)` writes a number, and
-- which row a query with `LIMIT 1` and no order gives.
pub record Runtime : Type 0 where
  pub show : ℕ → String
  pub choose : List PolicyRow → Option PolicyRow

-- The policies that apply to a service: its own and its team's, as a union without an order.
unfoldable pub policies_of : Db → String → List PolicyRow
policies_of db service_id =
    filter (λ p. is_text service_id p.service_id) db.policies
    ++ filter
        (λ p.
          any
            (λ s.
              s.id == service_id
              && (elim s.owner_team_id [ none ↦ false | some team ↦ is_text team p.team_id ]))
            db.services)
        db.policies

abbrev pub steps_of : Db → Option PolicyRow → List StepRow
steps_of db none = []
steps_of db (some p) = sort_by (λ s. s.level) (filter (λ s. s.policy_id == p.id) db.steps)

unfoldable pub steps_for_incident : Runtime → Db → IncidentRow → List StepRow
unfolding policies_of
steps_for_incident rt db incident = steps_of db (rt.choose (policies_of db incident.service_id))

abbrev pub sum_delays : List StepRow → ℕ
sum_delays [] = 0
sum_delays (s ∷ steps) = s.delay_minutes + sum_delays steps

-- The delays of the levels up to one.
unfoldable pub delay_up_to : List StepRow → ℕ → ℕ
delay_up_to steps level = sum_delays (filter (λ s. leb s.level level) steps)

abbrev pub next_level : IncidentRow → ℕ
next_level incident = incident.escalation_level + 1

abbrev pub next_step : List StepRow → IncidentRow → Option StepRow
next_step steps incident = find (λ s. s.level == next_level incident) steps

unfoldable pub delay_for_next_step : Runtime → Db → IncidentRow → Option ℕ
unfolding delay_up_to
delay_for_next_step rt db incident =
    let steps = steps_for_incident rt db incident in
    elim (next_step steps incident) [
      | none ↦ none
      | some _ ↦ some (delay_up_to steps (next_level incident))
    ]

abbrev pub is_escalatable : IncidentStatus → Bool
is_escalatable open_ = true
is_escalatable acknowledged = true
is_escalatable investigating = true
is_escalatable mitigated = false
is_escalatable resolved = false
is_escalatable escalated = true

unfoldable pub is_candidate : IncidentRow → Bool
is_candidate r =
    is_escalatable r.status && not (is_some r.acknowledged_at) && ltb r.escalation_level 10

unfoldable pub is_due : Runtime → Db → ℕ → IncidentRow → Bool
is_due rt db now incident = elim (delay_for_next_step rt db incident) [
  | none ↦ false
  | some delay ↦ leb (incident.created_at + delay * 60000) now
]

unfoldable pub find_due_incidents : Runtime → Db → ℕ → List IncidentRow
find_due_incidents rt db now =
    filter (is_due rt db now)
      (take 50 (sort_by (λ r. r.created_at) (filter is_candidate db.incidents)))

unfoldable pub incident_unacknowledged : IncidentStatus → Bool
incident_unacknowledged s = not (s == acknowledged) && not (s == resolved)
