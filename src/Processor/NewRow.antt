-- ===== src/Processor/NewRow.antt =====
-- What the row of an incident that event.processor.ts opens has to hold, column by column.
use ops_mesh.Base.{ℕ, ◌≡◌, refl, Option, none, some, [], ◌∷◌, String, ltb, arith}
use ops_mesh.Types.{
  IncidentSeverity, IncidentPriority, sev1, sev2, sev3, sev4, p1, p2, p3, p4, open_,
}
use ops_mesh.Shared.Severity.{calculate_severity, severity_to_priority}
use ops_mesh.Db.{Db, IncidentRow, UserRow}
use ops_mesh.World.{text}
use ops_mesh.Processor.{IngestedEventMessage, get_service}
use ops_mesh.Processor.Create.{new_incident, on_call_engineer}
use ops_mesh.Processor.Process.{severity_of_event, criticality_of, create_params}

abbrev severity_number : IncidentSeverity → ℕ
severity_number sev1 = 1
severity_number sev2 = 2
severity_number sev3 = 3
severity_number sev4 = 4

abbrev priority_number : IncidentPriority → ℕ
priority_number p1 = 1
priority_number p2 = 2
priority_number p3 = 3
priority_number p4 = 4

-- Whom the row names: the engineer on call, or nobody when there is none.
abbrev IsAssigned : Option UserRow → Option String → Type 0
IsAssigned none assigned = assigned ≡ none
IsAssigned (some u) assigned = assigned ≡ some u.id

-- The row `r`, opened at `now` under the id `id` for the event `msg`, the n-th of its window.
pub record IsNewIncident (d : Db) (msg : IngestedEventMessage) (n : ℕ) (id : String) (now : ℕ)
    (r : IncidentRow) : Type 0 where
  pub id_ : r.id ≡ id
  pub title : r.title ≡ text (msg.service_name ∷ ": " ∷ msg.event_type ∷ [])
  pub description : r.description ≡ some msg.message
  pub service : r.service_id ≡ msg.service_id
  pub status : r.status ≡ open_
  pub severity :
      r.severity
      ≡ calculate_severity (record {
        service_criticality = criticality_of (get_service d msg.service_id);
        event_severity = msg.severity;
        environment = msg.environment;
        error_frequency = n;
        affected_users = none;
        is_repeated_failure = ltb 1 n;
      })
  pub priority : priority_number r.priority ≡ severity_number r.severity
  pub assigned : IsAssigned (on_call_engineer d msg.service_id now) r.assigned_engineer_id
  pub unacknowledged : r.acknowledged_at ≡ none
  pub unresolved : r.resolved_at ≡ none
  pub level : r.escalation_level ≡ 0
  pub count : r.event_count ≡ 1
  pub key : r.dedupe_key ≡ some msg.fingerprint
  pub created : r.created_at ≡ now
  pub updated : r.updated_at ≡ now

same_number : (s : IncidentSeverity) → priority_number (severity_to_priority s) ≡ severity_number s
unfolding severity_to_priority
same_number s = ground arith

names_engineer :
    (msg : IngestedEventMessage) (s : IncidentSeverity) (id : String) (u : Option UserRow) (now : ℕ)
    → IsAssigned u (new_incident (create_params msg s) id u now).assigned_engineer_id
unfolding new_incident
names_engineer msg s id none now = refl
names_engineer msg s id (some u) now = refl

pub new_incident-IsNewIncident :
    (d : Db) (msg : IngestedEventMessage) (n : ℕ) (id : String) (now : ℕ)
    → IsNewIncident d msg n id now (
        new_incident
          (create_params msg (severity_of_event d msg n))
          id
          (on_call_engineer d msg.service_id now)
          now)
unfolding new_incident severity_of_event
new_incident-IsNewIncident d msg n id now = record {
  id_ = refl;
  title = refl;
  description = refl;
  service = refl;
  status = refl;
  severity = refl;
  priority = same_number (severity_of_event d msg n);
  assigned =
      names_engineer msg (severity_of_event d msg n) id (on_call_engineer d msg.service_id now) now;
  unacknowledged = refl;
  unresolved = refl;
  level = refl;
  count = refl;
  key = refl;
  created = refl;
  updated = refl;
}
