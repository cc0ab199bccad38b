-- ===== src/Health.antt =====
-- apps/worker/src/modules/healthcheck/health-check.worker.ts: what a check of a service leads to.
pub mod Alternate
use ops_mesh.Base.{
  ℕ, ◌+◌, Bool, true, false, not, Option, none, some, List, [], ◌∷◌, ◌++◌, String, ◌==◌, string_eq,
  nat_eq, if◌then◌else◌, ◌&&◌, Map, lookup, insert, or_else, leb, update_where, map,
}
use ops_mesh.Types.{ServiceStatus, EventSeverity, Environment, production}
use ops_mesh.Db.{Db, ServiceRow}
use ops_mesh.Errors.{Result, ok}
use ops_mesh.World.{World, emit, service_health, text}
use ops_mesh.Processor.{has_service_id}

pub record HealthCheckServiceRow : Type 0 where
  pub id : String
  pub name : String
  pub health_check_url : String
  pub health_check_method : String
  pub health_check_timeout : ℕ
  pub expected_status : ℕ

pub record HealthCheckOutcome : Type 0 where
  pub service_id : String
  pub service_name : String
  pub ok : Bool
  pub latency_ms : ℕ
  pub status_code : Option ℕ
  pub error : Option String

-- How the HTTP request ends: with a status, by the timeout, or with another error.
pub data Response : Type 0 where
  answered : (status : ℕ) → Response
  aborted : Response
  failed : (message : String) → Response

pub data EventType : Type 0 where
  health_check_failure health_check_recovery : EventType

-- The published message; its id, its time and its fingerprint are left out.
pub record ReliabilityEvent : Type 0 where
  pub service_id : String
  pub service_name : String
  pub event_type : EventType
  pub severity : EventSeverity
  pub message : String
  pub environment : Environment
  pub latency_ms : ℕ
  pub status_code : Option ℕ
  pub error : Option String

-- The worker: the shared state, `consecutiveFailures`, and what it has published.
pub record HealthCheckWorker : Type 0 where
  pub world : World
  pub consecutive_failures : Map ℕ
  pub published : List ReliabilityEvent

abbrev pub status_of : Bool → ℕ → ServiceStatus
status_of healthy failures =
    if healthy
    then ServiceStatus.healthy
    else if leb 3 failures
    then ServiceStatus.down
    else ServiceStatus.degraded

abbrev pub failures_of : HealthCheckWorker → String → ℕ
failures_of h id = or_else (lookup id h.consecutive_failures) 0

abbrev pub next_failures : Bool → ℕ → ℕ
next_failures healthy failures = if healthy then 0 else failures + 1

-- The event of a check, if there is one.
unfoldable pub event_of : Bool → ℕ → Option EventType
event_of healthy failures =
    if next_failures healthy failures == 3
    then some health_check_failure
    else if next_failures healthy failures == 0 && leb 3 failures
    then some health_check_recovery
    else none

abbrev pub with_service_status : String → ServiceStatus → Db → Db
with_service_status id status db = record db {
  services = update_where (has_service_id id) (λ s. record s { status = status }) db.services;
}

abbrev pub is_maintenance : ServiceStatus → Bool
is_maintenance ServiceStatus.healthy = false
is_maintenance ServiceStatus.degraded = false
is_maintenance ServiceStatus.down = false
is_maintenance ServiceStatus.unknown = false
is_maintenance ServiceStatus.maintenance = true

-- The row that the query reads, if it reads the service.
abbrev pub due_service : ServiceRow → Option String → List HealthCheckServiceRow
due_service s none = []
due_service s (some url) =
    if not s.deleted && not (is_maintenance s.status)
    then record {
      id = s.id;
      name = s.name;
      health_check_url = url;
      health_check_method = s.health_check_method;
      health_check_timeout = s.health_check_timeout;
      expected_status = s.expected_status;
    }
      ∷ []
    else []

unfoldable pub due_services : List ServiceRow → List HealthCheckServiceRow
due_services [] = []
due_services (s ∷ rows) = due_service s s.health_check_url ++ due_services rows

-- How `${n}` writes a number is the language's own conversion.
module _ (show : ℕ → String) where
  unfoldable pub check_one : HealthCheckServiceRow → ℕ → Response → HealthCheckOutcome
  check_one svc latency (answered status) =
      let healthy = status == svc.expected_status in
      record {
        service_id = svc.id;
        service_name = svc.name;
        ok = healthy;
        latency_ms = latency;
        status_code = some status;
        error =
            if healthy
            then none
            else some (
                text (
                  "unexpected status "
                  ∷ show status
                  ∷ ", expected "
                  ∷ show svc.expected_status
                  ∷ []));
      }
  check_one svc latency aborted = record {
    service_id = svc.id;
    service_name = svc.name;
    ok = false;
    latency_ms = latency;
    status_code = none;
    error = some (text ("timeout after " ∷ show svc.health_check_timeout ∷ "ms" ∷ []));
  }
  check_one svc latency (failed message) = record {
    service_id = svc.id;
    service_name = svc.name;
    ok = false;
    latency_ms = latency;
    status_code = none;
    error = some message;
  }

  abbrev pub event_message : HealthCheckServiceRow → HealthCheckOutcome → EventType → String
  event_message svc outcome health_check_failure =
      text (svc.name ∷ " is DOWN: " ∷ or_else outcome.error "health check failed" ∷ [])
  event_message svc outcome health_check_recovery =
      text (svc.name ∷ " recovered (latency " ∷ show outcome.latency_ms ∷ "ms)" ∷ [])

  abbrev pub event_severity : EventType → EventSeverity
  event_severity health_check_failure = EventSeverity.critical
  event_severity health_check_recovery = EventSeverity.low

  unfoldable pub emit_reliability_event :
      HealthCheckWorker
      → HealthCheckServiceRow
      → HealthCheckOutcome
      → Option EventType
      → HealthCheckWorker
  emit_reliability_event h svc outcome none = h
  emit_reliability_event h svc outcome (some type) = record h {
    published =
        h.published
        ++ record {
          service_id = svc.id;
          service_name = svc.name;
          event_type = type;
          severity = event_severity type;
          message = event_message svc outcome type;
          environment = production;
          latency_ms = outcome.latency_ms;
          status_code = outcome.status_code;
          error = outcome.error;
        }
          ∷ [];
  }

  -- The counter, the transaction's writes, the event, and the realtime message.
  unfoldable pub record_outcome :
      HealthCheckWorker → HealthCheckServiceRow → HealthCheckOutcome → HealthCheckWorker
  unfolding emit_reliability_event event_of
  record_outcome h svc outcome =
      let failures = failures_of h svc.id in
      let next = next_failures outcome.ok failures in
      let db = h.world.db in
      let db1 = record db {
        health_results =
            db.health_results
            ++ record {
              service_id = svc.id;
              pass = outcome.ok;
              latency_ms = outcome.latency_ms;
              status_code = outcome.status_code;
              error = outcome.error;
            }
              ∷ [];
      } in
      let h1 = record h {
        consecutive_failures = insert svc.id next h.consecutive_failures;
        world = record h.world { db = with_service_status svc.id (status_of outcome.ok next) db1 };
      } in
      let h2 = emit_reliability_event h1 svc outcome (event_of outcome.ok failures) in
      record h2 { world = emit h2.world (service_health svc.id outcome.ok) }

  -- The loop of a poll, over each row with the latency and the response of its check.
  unfoldable pub poll :
      HealthCheckWorker → List (HealthCheckServiceRow × ℕ × Response) → HealthCheckWorker
  unfolding record_outcome check_one
  poll h [] = h
  poll h ((svc, latency, response) ∷ rest) =
      poll (record_outcome h svc (check_one svc latency response)) rest
