-- ===== src/Lib.antt =====
-- OpsMesh: incident management. Events of services are ingested, deduplicated by fingerprint and
-- turned into incidents by a worker; engineers move the incidents through their lifecycle over the
-- API; workers escalate what nobody acknowledges and deliver notifications.
--
-- The parts, and how they interact:
-- - Types, Shared: packages/shared/src. The enumerations, the state machine of an incident
--   (utils/state-machine.ts), the severity engine (utils/severity.ts), backoff and retry, chunking,
--   rotation, pagination and dates (utils/index.ts, api-response.ts, env.ts, date.ts).
-- - Redis: packages/infra/src/redis.ts, class RedisMemory. Every command takes the store and the time
--   and answers the new store.
-- - EventBus: packages/infra/src/eventbus.ts, class MemoryEventBus, one round of its loop at a time,
--   and what RabbitEventBus (EventBus.Rabbit) answers to a delivery.
-- - Errors: apps/api/src/common/errors.ts and middleware/error-handler.ts. A call that may throw
--   answers a `Result`.
-- - Db, World: the PostgreSQL tables as lists of rows, `transaction` of common/db.ts, the dedupe cache
--   in Redis and the realtime messages. The API and the workers are functions on `World`; Redis being
--   down is a `World` without a cache.
-- - Incidents: apps/api/src/modules/incidents. `update_incident_status`, `change_severity`,
--   `assign_engineer`, `add_comment`, `reopen_incident` of incidents.service.ts, and `handle` for the
--   routes of incidents.routes.ts.
-- - Ingest: apps/api/src/modules/events/events.service.ts. `resolve_service`, and `ingest_event` with
--   its idempotency keys, its row and its message. The hash of an event is an argument. Ingest.Route:
--   `post_event` for the route of events.routes.ts, with its key, its limit and its schema.
-- - Auth: apps/api/src/middleware/auth.ts and modules/auth. The guards `require_auth`, `require_role`,
--   `require_api_key`, `require_any_auth`; Auth.Users for auth.service.ts; Auth.Keys for
--   api-key-store.ts and modules/apikeys. jsonwebtoken, bcrypt and sha256 are parameters.
-- - Services: apps/api/src/modules/services/services.service.ts. `create_service`, `update_service`,
--   `disable_service`. Sql: statements with numbered placeholders, which PostgreSQL refuses where their
--   highest number is not the number of parameters.
-- - Teams: apps/api/src/modules/teams/teams.routes.ts. Access: the writing routes of the routers of
--   teams, services, API keys, on-call schedules, policies and notifications, each behind the limit of
--   app.ts and its guards; `serve` is one request, `run` what it does once it is let through; and
--   `post_register` for POST /register of modules/auth/auth.routes.ts, with its schema.
-- - Pipeline: the event consumer of apps/worker/src/index.ts, between the bus and `process_event`.
-- - Listing: the pagination schema and middleware/validate.ts. Incidents.Listed: the incident list.
-- - Stats: the counters of workers and queues, common/stats.ts of both processes and
--   modules/system/system.service.ts of the API.
-- - RateLimit: apps/api/src/middleware/rate-limit.ts. `rate_limiter`, over the window of Redis.
-- - Processor: apps/worker/src/modules/event-processor/event.processor.ts. `process_event` and its
--   helpers; Processor.NewRow and Processor.OnDuty describe the row of a new incident and its engineer.
-- - Escalation: apps/worker/src/modules/escalation/escalation.worker.ts. `find_due_incidents`,
--   `escalate_once` and `poll`. Which policy its query with LIMIT 1 takes, where several apply, is the
--   database's choice, an argument (`Runtime`). Escalation.Policies:
--   apps/api/src/modules/escalation/escalation.routes.ts.
-- - Health: apps/worker/src/modules/healthcheck/health-check.worker.ts. `check_one`, `record_outcome`
--   for `record`, and `poll` over given rows. Services.Maintenance: the routes that change a service
--   together with the checks under way, which read their rows and write their outcome in two steps.
-- - OnCall: apps/worker/src/modules/oncall/on-call.worker.ts. `week_start`, `week_index` and
--   `materialize_shifts`. OnCall.Routes: apps/api/src/modules/oncall/oncall.routes.ts; the local time
--   of a time zone is an argument.
-- - Notify: apps/worker/src/modules/notification/notification.worker.ts and the rendering of
--   packages/shared/src/utils/notifications.ts. Notify.Service:
--   apps/api/src/modules/notifications/notifications.service.ts.
-- - Base: lists, maps, tables and comparisons for all of them. Tests: runs at concrete inputs.
--
-- Conventions. Times are numbers of milliseconds, and every call takes the time that it reads. Random
-- ids are arguments. Numbers are natural: the code has no negative ones but the penalties of the
-- severity tables, which are shifted (Shared.Severity). SQL is modelled with the constraints that the
-- code relies on: primary keys, the unique dedupe key and link, and the references of incidents, links,
-- comments and executions. A query without an order reads rows in the order of insertion,
-- except the escalation worker's union of policies, of which the database takes any.
--
-- Bounds and fuel. `chunk_array` runs on fuel, one step for each element, which is enough for every
-- positive size; a size of 0 never ends in the code. All other loops are structural.
--
-- Not modelled: HTTP, sockets, timers and logging; the concurrency of two transactions, except where
-- a step is stated from any state in between; the schemas that bound the lengths of texts, except that
-- of registration; queries that only read, other than those listed above; the metrics of the dashboard;
-- and the web dashboard.
pub mod Base
pub mod Types
pub mod Shared
pub mod Redis
pub mod EventBus
pub mod Db
pub mod Errors
pub mod World
pub mod Incidents
pub mod Notify
pub mod OnCall
pub mod Auth
pub mod Sql
pub mod Stats
pub mod Pipeline
pub mod Teams
pub mod Access
pub mod Listing
pub mod Services
pub mod Processor
pub mod Escalation
pub mod Ingest
pub mod RateLimit
pub mod Health
pub mod Tests
