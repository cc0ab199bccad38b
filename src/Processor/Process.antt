-- ===== src/Processor/Process.antt =====
-- event.processor.ts, processEvent.
use ops_mesh.Base.{
  ℕ, Option, none, some, [], ◌∷◌, String, ◌==◌, string_eq, if◌then◌else◌, find, ltb,
}
use ops_mesh.Types.{ServiceCriticality, IncidentSeverity, email, webhook}
use ops_mesh.Shared.Severity.{calculate_severity, severity_text}
use ops_mesh.Redis.{sliding_window_add}
use ops_mesh.Db.{Db, ServiceRow, UserRow}
use ops_mesh.Errors.{Result, ok, err}
use ops_mesh.World.{
  World, Json, emit, event_ingested, incident_updated, incident_created, transaction, text,
  cached_incident, refresh_dedupe_window, fingerprint_window_seconds,
}
use ops_mesh.Incidents.Rows.{get_incident}
use ops_mesh.Notify.{Action, enqueue_incident_notification}
use ops_mesh.Processor.{
  IngestedEventMessage, ProcessResult, Outcome, store_event, find_open_incident_by_fingerprint,
  link_event, get_service,
}
use ops_mesh.Processor.Create.{CreateParams, create_incident_record, has_user_id}

-- What the code takes from outside at one call: the time, the random part of a member of the sliding
-- window, the generated ids, and `process.env.API_URL ?? ''`.
pub record Context : Type 0 where
  pub now : ℕ
  pub member : String
  pub incident_id : String
  pub notification_ids : ℕ → String
  pub api_url : String

-- The counter of the fingerprint; 1 while Redis is down.
unfoldable pub count_in_window : World → String → Context → World × ℕ
count_in_window w fingerprint c = elim w.cache [
  | none ↦ (w, 1)
  | some r ↦
      let (r', n) =
        sliding_window_add r (text ("evt:count:" ∷ fingerprint ∷ [])) fingerprint_window_seconds
          c.now c.member in
      (record w { cache = some r' }, n)
]

-- `if (!incidentId)`: an empty id counts as none.
abbrev pub present : Option String → Option String
present none = none
present (some id) = if id == "" then none else some id

abbrev pub criticality_of : Option ServiceRow → ServiceCriticality
criticality_of none = ServiceCriticality.medium
criticality_of (some s) = s.criticality

unfoldable pub severity_of_event : Db → IngestedEventMessage → ℕ → IncidentSeverity
severity_of_event db msg window_count = calculate_severity (record {
  service_criticality = criticality_of (get_service db msg.service_id);
  event_severity = msg.severity;
  environment = msg.environment;
  error_frequency = window_count;
  affected_users = none;
  is_repeated_failure = ltb 1 window_count;
})

abbrev pub create_params : IngestedEventMessage → IncidentSeverity → CreateParams
create_params msg severity = record {
  service_id = msg.service_id;
  service_name = msg.service_name;
  event_id = msg.event_id;
  fingerprint = msg.fingerprint;
  severity = severity;
  message = msg.message;
  event_type = msg.event_type;
}

-- The engineer of the incident, by the join on `assigned_engineer_id`.
abbrev pub assignee : Db → String → Option UserRow
assignee db id = elim (get_incident db id) [
  | none ↦ none
  | some i ↦ elim i.assigned_engineer_id [
    | none ↦ none
    | some user ↦ find (has_user_id user) db.users
  ]
]

abbrev pub notify_assignee :
    Context → IngestedEventMessage → IncidentSeverity → String → Option UserRow → Db → Db
notify_assignee c msg severity id none db = db
notify_assignee c msg severity id (some u) db =
    enqueue_incident_notification c.api_url c.notification_ids c.now db
      (record {
        incident_title = text (msg.service_name ∷ ": " ∷ msg.event_type ∷ []);
        incident_id = id;
        severity = severity_text severity;
        service_name = msg.service_name;
        action = some Action.created;
        target_name = some u.name;
      })
      u.email (email ∷ webhook ∷ [])

module _ (j : Json) where
  abbrev pub linked :
      Context → World → IngestedEventMessage → String → Result Db → World × Result ProcessResult
  linked c w msg id (err e) = (w, err e)
  linked c w msg id (ok db) = (
    emit (refresh_dedupe_window j (record w { db = db }) msg.fingerprint id c.now)
        (incident_updated id none),
    ok (record { outcome = Outcome.incident_updated; incident_id = id; event_id = msg.event_id }),
  )

  -- The branch of an incident that is known already.
  unfoldable pub update_existing :
      Context → World → IngestedEventMessage → String → World × Result ProcessResult
  update_existing c w msg id = linked c w msg id (link_event w.db id msg.event_id c.now)

  -- The rest of a call that got an incident from `createIncidentRecord`.
  abbrev pub announce :
      Context
      → World
      → IngestedEventMessage
      → IncidentSeverity
      → Db × Result String
      → World × Result ProcessResult
  announce c w msg severity (db, err e) = (record w { db = db }, err e)
  announce c w msg severity (db, ok id) =
      let w1 = refresh_dedupe_window j (record w { db = db }) msg.fingerprint id c.now in
      let w2 = record w1 { db = notify_assignee c msg severity id (assignee w1.db id) w1.db } in
      (
        emit w2 (incident_created id),
        ok (record {
          outcome = Outcome.incident_created;
          incident_id = id;
          event_id = msg.event_id;
        }),
      )

  unfoldable pub open_incident :
      Context → World → IngestedEventMessage → ℕ → World × Result ProcessResult
  open_incident c w msg window_count =
      let severity = severity_of_event w.db msg window_count in
      announce c w msg severity
        (transaction (create_incident_record (create_params msg severity) c.incident_id c.now) w.db)

  abbrev pub or_found : Option String → Option String → Option String
  or_found none found = present found
  or_found (some id) found = some id

  unfoldable pub known_incident : Context → World → String → World × Option String
  known_incident c w fingerprint =
      let (w', cached) = cached_incident j w fingerprint c.now in
      (w', or_found (present cached) (find_open_incident_by_fingerprint w'.db fingerprint))

  abbrev pub continue :
      Context → IngestedEventMessage → ℕ → World × Option String → World × Result ProcessResult
  continue c msg n (w, some id) = update_existing c w msg id
  continue c msg n (w, none) = open_incident c w msg n

  abbrev pub stored :
      Context → World → IngestedEventMessage → Result Db → World × Result ProcessResult
  stored c w msg (err e) = (w, err e)
  stored c w msg (ok db) =
      let (w', n) =
        count_in_window (emit (record w { db = db }) (event_ingested msg.event_id)) msg.fingerprint
          c in
      continue c msg n (known_incident c w' msg.fingerprint)

  unfoldable pub process_event :
      Context → World → IngestedEventMessage → World × Result ProcessResult
  process_event c w msg = stored c w msg (store_event msg w.db)
