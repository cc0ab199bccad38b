-- ===== src/Processor.antt =====
-- apps/worker/src/modules/event-processor/event.processor.ts: how an ingested event opens an incident
-- or is linked to the open one.
pub mod Tables
pub mod Invariant
pub mod Keeps
pub mod Created
pub mod Fresh
pub mod NewRow
pub mod OnDuty
pub mod Opening
pub mod Redelivery
pub mod Create
pub mod Process
use ops_mesh.Base.{
  ℕ, ◌+◌, ◌≡◌, refl, Bool, true, false, not, Option, none, some, List, [], ◌∷◌, ◌++◌, String, ◌==◌,
  string_eq, if◌then◌else◌, ◌&&◌, find, any,
}
use ops_mesh.Types.{ServiceCriticality, Environment, EventSeverity, resolved}
use ops_mesh.Shared.StateMachine.{status_eq}
use ops_mesh.Db.{Db, IncidentRow, EventRow, ServiceRow, has_id}
use ops_mesh.Errors.{other, Result, ok, err}
use ops_mesh.Incidents.Rows.{get_incident, update_incident}

-- The criticality that the message carries is not read.
pub record IngestedEventMessage : Type 0 where
  pub event_id : String
  pub service_id : String
  pub service_name : String
  pub event_type : String
  pub severity : EventSeverity
  pub message : String
  pub environment : Environment
  pub timestamp : ℕ
  pub request_id : Option String
  pub fingerprint : String
  pub metadata : Option String

pub data Outcome : Type 0 where
  incident_created incident_updated : Outcome

pub record ProcessResult : Type 0 where
  pub outcome : Outcome
  pub incident_id : String
  pub event_id : String

abbrev pub has_event_id : String → EventRow → Bool
has_event_id id e = e.id == id

abbrev pub has_service_id : String → ServiceRow → Bool
has_service_id id s = s.id == id

-- `INSERT INTO events … ON CONFLICT (id) DO NOTHING`; an event refers to its service.
unfoldable pub store_event : IngestedEventMessage → Db → Result Db
store_event msg db =
    if any (has_event_id msg.event_id) db.events
    then ok db
    else if not (any (has_service_id msg.service_id) db.services)
    then err (other "foreign key violation")
    else ok (record db {
      events =
          db.events
          ++ record {
            id = msg.event_id;
            service_id = msg.service_id;
            event_type = msg.event_type;
            severity = msg.severity;
            message = msg.message;
            environment = msg.environment;
            timestamp = msg.timestamp;
            request_id = msg.request_id;
            fingerprint = msg.fingerprint;
            metadata = msg.metadata;
          }
            ∷ [];
    })

abbrev pub has_key : String → IncidentRow → Bool
has_key key r = elim r.dedupe_key [ none ↦ false | some k ↦ k == key ]

unfoldable pub find_open_incident_by_fingerprint : Db → String → Option String
find_open_incident_by_fingerprint db fingerprint =
    elim (find (λ r. has_key fingerprint r && not (r.status == resolved)) db.incidents) [
      | none ↦ none
      | some r ↦ some r.id
    ]

abbrev pub is_link : String → String → String → String → Bool
is_link incident_id event_id i e = i == incident_id && e == event_id

unfoldable pub is_linked : Db → String → String → Bool
is_linked db incident_id event_id =
    any (λ l. is_link incident_id event_id l.incident_id l.event_id) db.links

abbrev pub counted : ℕ → IncidentRow → IncidentRow
counted now r = record r { event_count = r.event_count + 1; updated_at = now }

abbrev pub has_incident : Db → String → Bool
has_incident db id = any (has_id id) db.incidents

-- `INSERT … ON CONFLICT (incident_id, event_id) DO NOTHING`, and the count only where a link is new.
unfoldable pub link_event : Db → String → String → ℕ → Result Db
unfolding is_linked
link_event db incident_id event_id now =
    if is_linked db incident_id event_id
    then ok db
    else if not (has_incident db incident_id && any (has_event_id event_id) db.events)
    then err (other "foreign key violation")
    else ok (
        update_incident incident_id (counted now) (record db {
          links = db.links ++ record { incident_id = incident_id; event_id = event_id } ∷ [];
        }))

unfoldable pub get_service : Db → String → Option ServiceRow
get_service db service_id = find (λ s. s.id == service_id && not s.deleted) db.services
