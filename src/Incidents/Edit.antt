-- ===== src/Incidents/Edit.antt =====
-- incidents.service.ts: changeSeverity, assignEngineer, addComment and reopenIncident.
use ops_mesh.Base.{
  ℕ, not, Option, none, some, [], ◌∷◌, ◌++◌, String, ◌==◌, ◌&&◌, string_eq, if◌then◌else◌, find,
  or_else,
}
use ops_mesh.Types.{IncidentSeverity, open_, resolved}
use ops_mesh.Shared.StateMachine.{status_eq}
use ops_mesh.Shared.Severity.{severity_to_priority, severity_text}
use ops_mesh.Db.{
  Db, IncidentRow, no_metadata, status_change, severity_change, assignment, status_changed,
  assigned, comment, incident_severity_changed, incident_assigned, incident_reopened,
}
use ops_mesh.Errors.{
  app, other, Result, ok, err, or_throw, ◌>>=◌, ◌>>◌, not_found_error, conflict_error,
}
use ops_mesh.World.{World, incident_updated, emit, transaction, text}
use ops_mesh.Incidents.Rows.{
  get_incident, update_incident, insert_timeline, write_audit, in_brackets, Answered,
}

-- A service call whose only effect is its transaction.
abbrev pub committed {ℓ} : {A : Type ℓ} → World → Db × Result A → World × Result A
committed w (db', r) = (record w { db = db' }, r)

unfoldable pub with_severity : IncidentSeverity → ℕ → IncidentRow → IncidentRow
unfolding severity_to_priority
with_severity severity now r = record r {
  severity = severity;
  priority = severity_to_priority severity;
  updated_at = now;
}

unfoldable pub change_severity_tx :
    String
    → IncidentSeverity
    → String
    → String
    → Option String
    → ℕ
    → Db
    → Result (Db × Option IncidentRow)
change_severity_tx incident_id severity actor_id actor_name actor_email now db = do
  incident ← or_throw (get_incident db incident_id) (app (not_found_error "Incident not found"))
  let db1 = update_incident incident_id (with_severity severity now) db
  let db2 =
      insert_timeline db1 incident_id status_changed
        (text
          ("Severity: " ∷ severity_text incident.severity ∷ " -> " ∷ severity_text severity ∷ []))
        (some actor_id) (some actor_name) no_metadata
  let db3 =
      write_audit db2 (some actor_id) actor_email incident_severity_changed incident_id
        (severity_change incident.severity severity)
  ok (db3, get_incident db incident_id)

unfoldable pub change_severity :
    World
    → String
    → IncidentSeverity
    → String
    → String
    → Option String
    → ℕ
    → World × Result (Option IncidentRow)
change_severity w incident_id severity actor_id actor_name actor_email now =
    committed w (
      transaction (change_severity_tx incident_id severity actor_id actor_name actor_email now)
        w.db)

unfoldable pub with_engineer : String → ℕ → IncidentRow → IncidentRow
with_engineer user_id now r = record r { assigned_engineer_id = some user_id; updated_at = now }

unfoldable pub assign_engineer_tx :
    String → String → String → String → Option String → ℕ → Db → Result (Db × Option IncidentRow)
assign_engineer_tx incident_id user_id actor_id actor_name reason now db = do
  incident ← or_throw (get_incident db incident_id) (app (not_found_error "Incident not found"))
  user ←
      or_throw (find (λ u. u.id == user_id && u.is_active) db.users)
        (app (not_found_error "Engineer not found"))
  let db1 = update_incident incident_id (with_engineer user_id now) db
  let db2 = record db1 {
    assignments =
        db1.assignments
        ++ record {
          incident_id = incident_id;
          user_id = user_id;
          assigned_by = some actor_id;
          reason = or_else reason "manual assignment";
        }
          ∷ [];
  }
  let db3 =
      insert_timeline db2 incident_id assigned
        (text ("Assigned to " ∷ user.name ∷ in_brackets reason ∷ [])) (some actor_id)
        (some actor_name) no_metadata
  let db4 =
      write_audit db3 (some actor_id) none incident_assigned incident_id (assignment user_id reason)
  ok (db4, get_incident db incident_id)

unfoldable pub assign_engineer :
    World
    → String
    → String
    → String
    → String
    → Option String
    → ℕ
    → World × Result (Option IncidentRow)
assign_engineer w incident_id user_id actor_id actor_name reason now =
    committed w
      (transaction (assign_engineer_tx incident_id user_id actor_id actor_name reason now) w.db)

-- The timeline row refers to the incident, so the insert fails where there is none.
unfoldable pub add_comment : World → String → String → String → String → World × Result (Unit {0})
add_comment w incident_id message actor_id actor_name = elim (get_incident w.db incident_id) [
  | none ↦ (w, err (other "foreign key violation"))
  | some _ ↦ (
    record w {
      db =
          insert_timeline w.db incident_id comment message (some actor_id) (some actor_name)
            no_metadata;
    },
    ok tt,
  )
]

unfoldable pub with_reopened : ℕ → IncidentRow → IncidentRow
with_reopened now r = record r { status = open_; resolved_at = none; updated_at = now }

unfoldable pub reopen_tx :
    String → String → String → Option String → ℕ → Db → Result (Db × Answered)
reopen_tx incident_id actor_id actor_name actor_email now db = do
  incident ← or_throw (get_incident db incident_id) (app (not_found_error "Incident not found"))
  (if not (incident.status == resolved)
      then err (app (conflict_error "Only a resolved incident can be reopened"))
      else ok tt)
  let db1 = update_incident incident_id (with_reopened now) db
  let db2 =
      insert_timeline db1 incident_id status_changed "Incident reopened" (some actor_id)
        (some actor_name) (status_change resolved open_)
  let db3 =
      write_audit db2 (some actor_id) actor_email incident_reopened incident_id
        (status_change resolved open_)
  ok (db3, record { incident = incident; answer = get_incident db incident_id })

abbrev pub reopen_done : World → Db × Result Answered → World × Result (Option IncidentRow)
reopen_done w (db', err e) = (record w { db = db' }, err e)
reopen_done w (db', ok a) =
    (emit (record w { db = db' }) (incident_updated a.incident.id (some open_)), ok a.answer)

unfoldable pub reopen_incident :
    World → String → String → String → Option String → ℕ → World × Result (Option IncidentRow)
reopen_incident w incident_id actor_id actor_name actor_email now =
    reopen_done w (transaction (reopen_tx incident_id actor_id actor_name actor_email now) w.db)
