-- ===== src/Tests/Ingestion.antt =====
-- Runs of the ingestion.
use ops_mesh.Base.{
  ◌≡◌, refl, ap, true, false, ◌∷◌, ◌++◌, any, Option, none, some, [], arith, lookup, insert,
}
use ops_mesh.Types.{EventSeverity, production}
use ops_mesh.Redis.{RedisMemory, new_redis, get, set, live, exists, deadline}
use ops_mesh.Errors.{other, Result, ok, err}
use ops_mesh.World.{World, cached_incident}
use ops_mesh.Ingest.{
  IngestEventInput, IngestResult, ServiceRef, Outside, Call, Intake, resolve_service,
  cached_service, idempotency_keys, fingerprint_key, any_exists, set_all, duplicate_result,
  ingest_event,
}
use ops_mesh.Ingest.Retry.{ingest_event_lost, ingest_event_once}
use ops_mesh.Processor.{IngestedEventMessage, has_service_id}
use ops_mesh.Processor.NewRow.{IsNewIncident}
use ops_mesh.Db.{IncidentRow}
use ops_mesh.Processor.Process.{count_in_window}
use ops_mesh.Pipeline.{Worker, handle_message}
use ops_mesh.Pipeline.Opening.{ingest_event-opens}
use ops_mesh.Tests.Data.{world, database, json, context}

abbrev ref : ServiceRef
ref = record { id = "checkout"; name = "checkout" }

abbrev pub outside : Outside
outside = record {
  write = λ s. s.name;
  read = λ t. some (record { id = t; name = t });
  calculate_fingerprint = λ i. "fp";
  length_text = λ m. "2";
}

abbrev pub request : IngestEventInput
request = record {
  service = "checkout";
  event_type = "timeout";
  severity = EventSeverity.high;
  message = "timeout";
  environment = production;
  timestamp = none;
  request_id = some "q1";
  metadata = none;
}

abbrev pub first_call : Call
first_call = record { now = 1000; event_id = "evt7"; db_error = none; bus_error = none }

abbrev broken_call : Call
broken_call = record first_call { db_error = some (other "connection lost") }

abbrev second_call : Call
second_call = record { now = 100000; event_id = "evt8"; db_error = none; bus_error = none }

abbrev intake : Intake
intake = record { world = world; queue = [] }

abbrev looked : World × Option ServiceRef
looked = resolve_service outside world "checkout" 1000

abbrev store : RedisMemory
store = set new_redis "svc:name:checkout" "checkout" (some 60) 1000

looked_up : (looked.1 ≡ some ref) × (looked.0.cache ≡ some store)
unfolding resolve_service cached_service get live lookup insert new_redis set deadline
looked_up = (refl, refl)

let_through : (any_exists store (idempotency_keys outside request) 1000).1 ≡ false
unfolding any_exists exists live lookup insert new_redis set deadline fingerprint_key
let_through = refl

known_again :
    ((resolve_service outside
        (ingest_event outside first_call intake request none).0.world
        "checkout"
        100000).1
      ≡ some ref)
    × ((resolve_service outside
          (ingest_event outside broken_call intake request none).0.world
          "checkout"
          100000).1
        ≡ some ref)
unfolding ingest_event resolve_service cached_service get live lookup insert new_redis set deadline
    any_exists exists set_all fingerprint_key
known_again = (refl, refl)

abbrev accepted_run : Intake
accepted_run = (ingest_event outside first_call intake request none).0

ingest_event_once_example :
    ((ingest_event outside second_call accepted_run request none).1
      ≡ ok (duplicate_result outside request))
    × ((ingest_event outside second_call accepted_run request none).0.world.db
        ≡ accepted_run.world.db)
    × ((ingest_event outside second_call accepted_run request none).0.queue ≡ accepted_run.queue)
ingest_event_once_example =
    ingest_event_once outside first_call second_call intake looked.0 store
      (any_exists store (idempotency_keys outside request) 1000).0 request none ref ref
      (ap (λ s. (looked.0, s)) looked_up.0) refl looked_up.1
      (ap (λ b. ((any_exists store (idempotency_keys outside request) 1000).0, b)) let_through)
      (omega arith) known_again.0 refl

abbrev broken_run : Intake × Result IngestResult
broken_run = ingest_event outside broken_call intake request none

ingest_event_lost_example :
    (broken_run.1 ≡ err (other "connection lost"))
    × (broken_run.0.world.db ≡ world.db)
    × ((ingest_event outside second_call broken_run.0 request none).1
        ≡ ok (duplicate_result outside request))
    × ((ingest_event outside second_call broken_run.0 request none).0.world.db ≡ world.db)
    × ((ingest_event outside second_call broken_run.0 request none).0.queue ≡ [])
ingest_event_lost_example =
    ingest_event_lost outside broken_call second_call intake looked.0 store
      (any_exists store (idempotency_keys outside request) 1000).0 request none ref ref
      (other "connection lost") (ap (λ s. (looked.0, s)) looked_up.0) refl looked_up.1
      (ap (λ b. ((any_exists store (idempotency_keys outside request) 1000).0, b)) let_through) refl
      (omega arith) known_again.1 refl

-- The worker, with a Redis of its own.
abbrev worker : Worker
worker = record {
  world = record world { db = accepted_run.world.db };
  stats = record { workers = []; queues = [] };
}

abbrev accepted_result : IngestResult
accepted_result = record {
  event_id = "evt7";
  accepted = true;
  duplicate = false;
  fingerprint = "fp";
  published = true;
}

is_accepted :
    ingest_event outside first_call intake request none ≡ (accepted_run, ok accepted_result)
unfolding ingest_event resolve_service cached_service get live lookup insert new_redis set deadline
    any_exists exists set_all fingerprint_key
is_accepted = refl

nothing_cached : (cached_incident json worker.world "fp" context.now).1 ≡ none
unfolding cached_incident get live new_redis lookup
nothing_cached = refl

ingest_event-opens_example :
    (msg : IngestedEventMessage) × (accepted_run.queue ≡ msg ∷ [])
    × (msg.fingerprint ≡ "fp")
    × (msg.severity ≡ EventSeverity.high)
    × (any (has_service_id msg.service_id) database.services ≡ true)
    × (let r = handle_message json context 1005 worker "event.ingested" msg in
        (row : IncidentRow) × (r.0.world.db.incidents ≡ database.incidents ++ row ∷ [])
        × IsNewIncident accepted_run.world.db msg
            (count_in_window worker.world msg.fingerprint context).1
            "inc3"
            context.now
            row
        × (r.0.world.db.links
            ≡ database.links ++ record { incident_id = "inc3"; event_id = "evt7" } ∷ [])
        × (r.1 ≡ ok tt))
ingest_event-opens_example =
    ingest_event-opens json outside first_call intake accepted_run request none accepted_result
      context 1005 worker is_accepted refl refl nothing_cached refl refl
