-- ===== src/Incidents/Rows.antt =====
-- incidents.service.ts: reads and writes that its operations share.
use ops_mesh.Base.{
  Option, none, some, [], ◌∷◌, ◌++◌, String, ◌==◌, string_eq, if◌then◌else◌, find, update_where,
}
use ops_mesh.Shared.StateMachine.{status_eq}
use ops_mesh.Db.{Db, IncidentRow, TimelineType, AuditAction, AuditTarget, Metadata, has_id}
use ops_mesh.World.{text}

unfoldable pub get_incident : Db → String → Option IncidentRow
get_incident db id = find (has_id id) db.incidents

-- `UPDATE incidents SET … WHERE id = $1`
abbrev pub update_incident : String → (IncidentRow → IncidentRow) → Db → Db
update_incident id f db = record db { incidents = update_where (has_id id) f db.incidents }

abbrev pub insert_timeline :
    Db → String → TimelineType → String → Option String → Option String → Metadata → Db
insert_timeline db incident_id type message actor_id actor_name metadata = record db {
  timeline =
      db.timeline
      ++ record {
        incident_id = incident_id;
        type = type;
        actor_id = actor_id;
        actor_name = actor_name;
        message = message;
        metadata = metadata;
      }
        ∷ [];
}

abbrev pub write_audit : Db → Option String → Option String → AuditAction → String → Metadata → Db
write_audit db actor_id actor_email action target_id metadata = record db {
  audit =
      db.audit
      ++ record {
        actor_id = actor_id;
        actor_email = actor_email;
        action = action;
        target_type = AuditTarget.incident;
        target_id = target_id;
        metadata = metadata;
      }
        ∷ [];
}

-- ` (${note})`, or nothing
abbrev pub in_brackets : Option String → String
in_brackets none = ""
in_brackets (some note) = if note == "" then "" else text (" (" ∷ note ∷ ")" ∷ [])

-- The row that a transaction found, and its answer. The answer is read by `getIncident` through the
-- pool, so by another connection: it shows the committed table, which is the one before the
-- transaction.
pub record Answered : Type 0 where
  pub incident : IncidentRow
  pub answer : Option IncidentRow
