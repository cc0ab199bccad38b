-- ===== src/Ingest.antt =====
-- apps/api/src/modules/events/events.service.ts: ingestEvent and resolveService. The counter of
-- published events (recordPublished) is left out.
pub mod Remembered
pub mod Retry
pub mod Route
pub mod Source
use ops_mesh.Base.{
  ℕ, ◌+◌, ◌≡◌, ◌||◌, Bool, true, false, not, Option, none, some, List, [], ◌∷◌, ◌++◌, String, ◌==◌,
  string_eq, if◌then◌else◌, ◌&&◌, find, any, or_else, is_some,
}
use ops_mesh.Types.{EventSeverity, Environment}
use ops_mesh.Redis.{RedisMemory, get, set, exists}
use ops_mesh.Db.{Db, EventRow, ServiceRow}
use ops_mesh.Errors.{Thrown, app, other, Result, ok, err, bad_request_error}
use ops_mesh.World.{World, text}
use ops_mesh.Processor.{IngestedEventMessage, has_service_id, has_event_id}

pub record IngestEventInput : Type 0 where
  pub service : String
  pub event_type : String
  pub severity : EventSeverity
  pub message : String
  pub environment : Environment
  pub timestamp : Option ℕ
  pub request_id : Option String
  pub metadata : Option String

pub record IngestResult : Type 0 where
  pub event_id : String
  pub accepted : Bool
  pub duplicate : Bool
  pub fingerprint : String
  pub published : Bool

-- `{ id, name }` of a service.
pub record ServiceRef : Type 0 where
  pub id : String
  pub name : String

-- What is left to arguments: `JSON` on a service (none where the parser throws), the hash of an
-- event, and how the language writes the length of a JSON text.
pub record Outside : Type 0 where
  pub write : ServiceRef → String
  pub read : String → Option ServiceRef
  pub calculate_fingerprint : IngestEventInput → String
  pub length_text : String → String

-- The time of a call, its generated id, and what the database and the bus throw at it, if they do.
pub record Call : Type 0 where
  pub now : ℕ
  pub event_id : String
  pub db_error : Option Thrown
  pub bus_error : Option Thrown

-- The shared state, and the messages published on the subject `event`.
pub record Intake : Type 0 where
  pub world : World
  pub queue : List IngestedEventMessage

abbrev pub dedupe_window_seconds : ℕ
dedupe_window_seconds = 120

abbrev pub service_key : String → String
service_key name = text ("svc:name:" ∷ name ∷ [])

-- `authorizedServiceId && service.id !== authorizedServiceId`
abbrev pub is_foreign : Option String → ServiceRef → Bool
is_foreign none svc = false
is_foreign (some id) svc = not (id == "") && not (svc.id == id)

abbrev pub request_keys : Option String → List String
request_keys none = []
request_keys (some id) = if id == "" then [] else text ("idem:req:" ∷ id ∷ []) ∷ []

-- The loop that looks for a key that exists.
unfoldable pub any_exists : RedisMemory → List String → ℕ → RedisMemory × Bool
any_exists r [] now = (r, false)
any_exists r (k ∷ keys) now =
    let (r', there) = exists r k now in
    let rest = any_exists r' keys now in if there then (r', true) else rest

unfoldable pub set_all : RedisMemory → List String → ℕ → RedisMemory
set_all r [] now = r
set_all r (k ∷ keys) now = set_all (set r k "1" (some dedupe_window_seconds) now) keys now

abbrev pub event_row : IngestedEventMessage → EventRow
event_row msg = record {
  id = msg.event_id;
  service_id = msg.service_id;
  event_type = msg.event_type;
  severity = msg.severity;
  message = msg.message;
  environment = msg.environment;
  timestamp = msg.timestamp;
  request_id = msg.request_id;
  fingerprint = msg.fingerprint;
  metadata = msg.metadata;
}

abbrev pub with_event : IngestedEventMessage → Db → Db
with_event msg db = record db { events = db.events ++ event_row msg ∷ [] }

-- The insertion of the event's row, which is not guarded against a conflict.
abbrev pub insert_event : Call → IngestedEventMessage → Db → Result Db
insert_event c msg db = elim c.db_error [
  | some e ↦ err e
  | none ↦
      if any (has_event_id msg.event_id) db.events
        || not (any (has_service_id msg.service_id) db.services)
      then err (other "constraint violation")
      else ok (with_event msg db)
]

abbrev pub enqueued :
    Call → Intake → IngestedEventMessage → Option Thrown → Intake × Result IngestResult
enqueued c s msg (some e) = (s, err e)
enqueued c s msg none = (
  record s { queue = s.queue ++ msg ∷ [] },
  ok (record {
    event_id = msg.event_id;
    accepted = true;
    duplicate = false;
    fingerprint = msg.fingerprint;
    published = true;
  }),
)

abbrev pub recorded :
    Call → Intake → IngestedEventMessage → Result Db → Intake × Result IngestResult
recorded c s msg (err e) = (s, err e)
recorded c s msg (ok db) =
    enqueued c (record s { world = record s.world { db = db } }) msg c.bus_error

module _ (o : Outside) where
  abbrev pub parsed_service : Option String → Option ServiceRef
  parsed_service none = none
  parsed_service (some t) = if t == "" then none else o.read t

  -- The cache, where Redis can be reached and the text can be parsed.
  unfoldable pub cached_service : World → String → ℕ → World × Option ServiceRef
  cached_service w name now = elim w.cache [
    | none ↦ (w, none)
    | some r ↦
        let (r', v) = get r (service_key name) now in
        (record w { cache = some r' }, parsed_service v)
  ]

  abbrev pub cache_service : World → ServiceRef → String → ℕ → World
  cache_service w svc name now = elim w.cache [
    | none ↦ w
    | some r ↦ record w { cache = some (set r (service_key name) (o.write svc) (some 60) now) }
  ]

  abbrev pub from_table : World → String → ℕ → Option ServiceRow → World × Option ServiceRef
  from_table w name now none = (w, none)
  from_table w name now (some s) =
      let svc : ServiceRef = record { id = s.id; name = s.name } in
      (cache_service w svc name now, some svc)

  abbrev pub or_table : String → ℕ → World × Option ServiceRef → World × Option ServiceRef
  or_table name now (w, some svc) = (w, some svc)
  or_table name now (w, none) =
      from_table w name now (find (λ s. s.name == name && not s.deleted) w.db.services)

  unfoldable pub resolve_service : World → String → ℕ → World × Option ServiceRef
  resolve_service w name now = or_table name now (cached_service w name now)

  abbrev pub meta_hash : Option String → String
  meta_hash none = "0"
  meta_hash (some metadata) = o.length_text metadata

  unfoldable pub fingerprint_key : IngestEventInput → String
  fingerprint_key input =
      text ("idem:fp:" ∷ o.calculate_fingerprint input ∷ ":" ∷ meta_hash input.metadata ∷ [])

  abbrev pub idempotency_keys : IngestEventInput → List String
  idempotency_keys input = request_keys input.request_id ++ fingerprint_key input ∷ []

  abbrev pub duplicate_result : IngestEventInput → IngestResult
  duplicate_result input = record {
    event_id = "";
    accepted = false;
    duplicate = true;
    fingerprint = o.calculate_fingerprint input;
    published = false;
  }

  abbrev pub message_for : Call → IngestEventInput → ServiceRef → IngestedEventMessage
  message_for c input svc = record {
    event_id = c.event_id;
    service_id = svc.id;
    service_name = svc.name;
    event_type = input.event_type;
    severity = input.severity;
    message = input.message;
    environment = input.environment;
    timestamp = or_else input.timestamp c.now;
    request_id = input.request_id;
    fingerprint = o.calculate_fingerprint input;
    metadata = input.metadata;
  }

  -- From the idempotency guard on. Without Redis its first command throws.
  abbrev pub guarded : Call → Intake → IngestEventInput → ServiceRef → Intake × Result IngestResult
  guarded c s input svc = elim s.world.cache [
    | none ↦ (s, err (other "redis unavailable"))
    | some r ↦
        let keys = idempotency_keys input in
        let (r', there) = any_exists r keys c.now in
        let looked = record s { world = record s.world { cache = some r' } } in
        let noted = record s { world = record s.world { cache = some (set_all r' keys c.now) } } in
        let msg = message_for c input svc in
        if there
        then (looked, ok (duplicate_result input))
        else recorded c noted msg (insert_event c msg noted.world.db)
  ]

  abbrev pub authorized :
      Call
      → Intake
      → IngestEventInput
      → Option String
      → World × Option ServiceRef
      → Intake × Result IngestResult
  authorized c s input auth (w, none) = (
    record s { world = w },
    err (
        app (
          bad_request_error
            (text ("Unknown service '" ∷ input.service ∷ "' - register it first" ∷ [])))),
  )
  authorized c s input auth (w, some svc) =
      if is_foreign auth svc
      then (
        record s { world = w },
        err (
            app (
              bad_request_error
                (text ("API key is not authorized for service '" ∷ input.service ∷ "'" ∷ [])))),
      )
      else guarded c (record s { world = w }) input svc

  unfoldable pub ingest_event :
      Call → Intake → IngestEventInput → Option String → Intake × Result IngestResult
  ingest_event c s input auth =
      authorized c s input auth (resolve_service s.world input.service c.now)
