-- ===== src/Incidents/Status.antt =====
-- incidents.service.ts, updateIncidentStatus. `now` is the time of the call, which SQL's `now()` and
-- `new Date()` both give.
use ops_mesh.Base.{
  ℕ, not, Option, none, some, List, [], ◌∷◌, String, ◌==◌, ◌&&◌, string_eq, if◌then◌else◌, find,
  or_else,
}
use ops_mesh.Types.{IncidentStatus, acknowledged, resolved}
use ops_mesh.Shared.StateMachine.{
  status_eq, status_text, TransitionCheck, valid, invalid, validate_status_transition,
}
use ops_mesh.Db.{
  Db, IncidentRow, status_change, resolution, status_changed, incident_status_changed,
  incident_resolved, has_id,
}
use ops_mesh.Errors.{app, Result, ok, err, or_throw, ◌>>=◌, ◌>>◌, not_found_error, conflict_error}
use ops_mesh.World.{World, Json, incident_updated, emit, transaction, text, clear_dedupe_cache}
use ops_mesh.Incidents.Rows.{
  get_incident, update_incident, insert_timeline, write_audit, in_brackets, Answered,
}

pub record UpdateStatusParams : Type 0 where
  pub status : IncidentStatus
  pub actor_id : String
  pub actor_name : String
  pub actor_email : Option String
  pub note : Option String
  pub resolution_summary : Option String

abbrev pub joined : List IncidentStatus → String
joined [] = ""
joined (s ∷ []) = status_text s
joined (s ∷ t ∷ rest) = text (status_text s ∷ ", " ∷ joined (t ∷ rest) ∷ [])

-- The message of `validateStatusTransition`.
abbrev pub transition_error : IncidentStatus → IncidentStatus → List IncidentStatus → String
transition_error from to allowed = text (
    "Invalid status transition from "
    ∷ status_text from
    ∷ " to "
    ∷ status_text to
    ∷ ". Allowed: "
    ∷ joined allowed
    ∷ [])

-- The row after `UPDATE incidents SET ${updates}`.
unfoldable pub with_status : IncidentStatus → ℕ → IncidentRow → IncidentRow
with_status status now r = record r {
  status = status;
  updated_at = now;
  acknowledged_at =
      if status == acknowledged then some (or_else r.acknowledged_at now) else r.acknowledged_at;
  resolved_at = if status == resolved then some now else r.resolved_at;
}

-- What the transaction writes after its checks.
unfoldable pub write_status : Db → IncidentRow → UpdateStatusParams → ℕ → Db
unfolding with_status
write_status db incident p now =
    let change = status_change incident.status p.status in
    let db1 = update_incident incident.id (with_status p.status now) db in
    let db2 =
      insert_timeline db1 incident.id status_changed
        (text (
          "Status: "
          ∷ status_text incident.status
          ∷ " -> "
          ∷ status_text p.status
          ∷ in_brackets p.note
          ∷ []))
        (some p.actor_id) (some p.actor_name) change in
    let db3 =
      write_audit db2 (some p.actor_id) p.actor_email incident_status_changed incident.id change in
    if p.status == resolved
    then write_audit db3 (some p.actor_id) p.actor_email incident_resolved incident.id
        (resolution p.resolution_summary)
    else db3

abbrev pub checked : TransitionCheck → Result (Unit {0})
checked valid = ok tt
checked (invalid from to allowed) = err (app (conflict_error (transition_error from to allowed)))

unfoldable pub update_status_tx : String → UpdateStatusParams → ℕ → Db → Result (Db × Answered)
update_status_tx incident_id p now db = do
  incident ←
      or_throw (find (λ r. has_id incident_id r && not (r.status == resolved)) db.incidents)
        (app (not_found_error "Incident not found or already resolved"))
  checked (validate_status_transition incident.status p.status)
  ok (
    write_status db incident p now,
    record { incident = incident; answer = get_incident db incident_id },
  )

module _ (j : Json) where
  -- Resolving clears the dedupe cache of the incident's key, if it has one.
  unfoldable pub after_status : World → IncidentRow → IncidentStatus → ℕ → World
  after_status w incident status now =
      let w' : World = elim incident.dedupe_key [
        | none ↦ w
        | some key ↦ if key == "" then w else clear_dedupe_cache j w key incident.id now
      ] in
      emit (if status == resolved then w' else w) (incident_updated incident.id (some status))

  abbrev pub status_done :
      World → IncidentStatus → ℕ → Db × Result Answered → World × Result (Option IncidentRow)
  status_done w status now (db', err e) = (record w { db = db' }, err e)
  status_done w status now (db', ok a) =
      (after_status (record w { db = db' }) a.incident status now, ok a.answer)

  unfoldable pub update_incident_status :
      World → String → UpdateStatusParams → ℕ → World × Result (Option IncidentRow)
  update_incident_status w incident_id p now =
      status_done w p.status now (transaction (update_status_tx incident_id p now) w.db)
