-- ===== src/Processor/Create.antt =====
-- event.processor.ts, createIncidentRecord and activeEngineerForTeam.
use ops_mesh.Base.{
  ℕ, Bool, true, false, not, Option, none, some, List, [], ◌∷◌, ◌++◌, String, ◌==◌, string_eq,
  if◌then◌else◌, ◌&&◌, find, any, filter, leb, ltb,
}
use ops_mesh.Types.{IncidentSeverity, open_, UserRole, admin, engineer, viewer}
use ops_mesh.Shared.Severity.{severity_to_priority}
use ops_mesh.Db.{
  Db, IncidentRow, UserRow, ShiftRow, created, assigned, event_source, no_metadata, creation,
  incident_created, has_id,
}
use ops_mesh.Errors.{other, Result, ok, err}
use ops_mesh.World.{text}
use ops_mesh.Incidents.Rows.{insert_timeline, write_audit}
use ops_mesh.Processor.{has_key, has_service_id}

-- `ORDER BY f LIMIT 1`, the first row where several are least.
abbrev pub least_by {ℓ} : {A : Type ℓ} → (A → ℕ) → List A → Option A
least_by f [] = none
least_by f (x ∷ xs) = elim (least_by f xs) [
  | none ↦ some x
  | some y ↦ if leb (f x) (f y) then some x else some y
]

abbrev pub has_user_id : String → UserRow → Bool
has_user_id id u = u.id == id

abbrev pub is_current : ℕ → ShiftRow → Bool
is_current now s = leb s.starts_at now && ltb now s.ends_at

abbrev pub is_responder : UserRole → Bool
is_responder engineer = true
is_responder admin = true
is_responder viewer = false

abbrev pub in_team : String → Option String → Bool
in_team team none = false
in_team team (some t) = t == team

-- The join of users, shifts and schedules.
abbrev pub team_shift : Db → String → ℕ → ShiftRow → Bool
team_shift db team_id now s =
    is_current now s
    && any (λ sc. sc.id == s.schedule_id && sc.team_id == team_id) db.schedules
    && any (has_user_id s.user_id) db.users

unfoldable pub active_engineer_for_team : Db → String → ℕ → Option UserRow
active_engineer_for_team db team_id now =
    elim (least_by (λ s. s.ends_at) (filter (team_shift db team_id now) db.shifts)) [
      | some s ↦ find (has_user_id s.user_id) db.users
      | none ↦
          least_by (λ u. u.created_at)
            (filter (λ u. in_team team_id u.team_id && is_responder u.role && u.is_active) db.users)
    ]

pub record CreateParams : Type 0 where
  pub service_id : String
  pub service_name : String
  pub event_id : String
  pub fingerprint : String
  pub severity : IncidentSeverity
  pub message : String
  pub event_type : String

abbrev pub owner_team : Db → String → Option String
owner_team db service_id = elim (find (has_service_id service_id) db.services) [
  | none ↦ none
  | some s ↦ s.owner_team_id
]

-- `ownerTeam ? await activeEngineerForTeam(tx, ownerTeam) : null`
unfoldable pub on_call_engineer : Db → String → ℕ → Option UserRow
unfolding active_engineer_for_team
on_call_engineer db service_id now = elim (owner_team db service_id) [
  | none ↦ none
  | some team ↦ if team == "" then none else active_engineer_for_team db team now
]

abbrev pub user_id_of : Option UserRow → Option String
user_id_of none = none
user_id_of (some u) = some u.id

-- The row of a new incident, with the defaults of the table.
unfoldable pub new_incident : CreateParams → String → Option UserRow → ℕ → IncidentRow
new_incident p id on_call now = record {
  id = id;
  title = text (p.service_name ∷ ": " ∷ p.event_type ∷ []);
  description = some p.message;
  service_id = p.service_id;
  severity = p.severity;
  status = open_;
  priority = severity_to_priority p.severity;
  assigned_engineer_id = user_id_of on_call;
  acknowledged_at = none;
  resolved_at = none;
  escalation_level = 0;
  event_count = 1;
  dedupe_key = some p.fingerprint;
  created_at = now;
  updated_at = now;
}

abbrev pub assign_on_call : Db → String → Option UserRow → Db
assign_on_call db id none = db
assign_on_call db id (some u) =
    let db' =
      insert_timeline db id assigned "Assigned to on-call engineer" (some u.id) (some u.name)
        no_metadata in
    record db' {
      assignments =
          db'.assignments
          ++ record {
            incident_id = id;
            user_id = u.id;
            assigned_by = none;
            reason = "auto on-call";
          }
            ∷ [];
    }

-- The writes after the incident's row.
abbrev pub with_incident : Db → CreateParams → String → Option UserRow → ℕ → Db
with_incident db p id on_call now =
    let db1 = record db {
      incidents = db.incidents ++ new_incident p id on_call now ∷ [];
      links = db.links ++ record { incident_id = id; event_id = p.event_id } ∷ [];
    } in
    let db2 =
      insert_timeline db1 id created "Incident created from event" none none
        (event_source p.event_type) in
    write_audit (assign_on_call db2 id on_call) none none incident_created id
      (creation p.severity p.service_id)

-- `ON CONFLICT (dedupe_key) DO NOTHING`: an incident of the key, whatever its status, is answered as
-- it is. `id` is the generated id; a collision with a stored one violates the primary key. A missing
-- service violates the reference of the incident, a missing event that of the link.
unfoldable pub create_incident_record : CreateParams → String → ℕ → Db → Result (Db × String)
unfolding new_incident
create_incident_record p id now db = elim (find (has_key p.fingerprint) db.incidents) [
  | some existing ↦ ok (db, existing.id)
  | none ↦
      if any (has_id id) db.incidents
      then err (other "duplicate key")
      else if not
          (any (has_service_id p.service_id) db.services && any (λ e. e.id == p.event_id) db.events)
      then err (other "foreign key violation")
      else ok (with_incident db p id (on_call_engineer db p.service_id now) now, id)
]
