-- ===== src/Stats.antt =====
-- Counters of workers and queues: apps/worker/src/common/stats.ts, apps/api/src/common/stats.ts and
-- the lists of apps/api/src/modules/system/system.service.ts. A failing query is swallowed by all of
-- these functions; here every query succeeds. The
-- status of a worker, which is always RUNNING, and the dates of the last update, which nothing reads,
-- are left out.
pub mod Counted
use ops_mesh.Base.{
  ℕ, ◌+◌, ◌-◌, Option, none, some, List, [], ◌∷◌, String, if◌then◌else◌, ltb, map, Map, lookup,
  ◌==◌, string_eq,
}

-- worker_stats
pub record WorkerRow : Type 0 where
  pub worker_type : String
  pub jobs_processed : ℕ
  pub failed_jobs : ℕ
  pub current_job : Option String
  pub last_heartbeat : ℕ
  pub started_at : ℕ

-- queue_stats
pub record QueueRow : Type 0 where
  pub published : ℕ
  pub processing : ℕ
  pub completed : ℕ
  pub failed : ℕ
  pub completed_60s : ℕ
  pub rate_reset_at : ℕ

pub record Stats : Type 0 where
  pub workers : Map WorkerRow
  pub queues : Map QueueRow

abbrev pub empty_queue : ℕ → QueueRow
empty_queue now = record {
  published = 0;
  processing = 0;
  completed = 0;
  failed = 0;
  completed_60s = 0;
  rate_reset_at = now;
}

-- `UPDATE … WHERE key = k`, of a table with that key
abbrev pub update_key {ℓ} : {V : Type ℓ} → (V → V) → String → Map V → Map V
update_key f k [] = []
update_key f k (entry ∷ rest) =
    let others = update_key f k rest in
    if entry.0 == k then (k, f entry.1) ∷ rest else entry ∷ others

-- `INSERT … ON CONFLICT (key) DO UPDATE`
abbrev pub upsert_key {ℓ} : {V : Type ℓ} → V → (V → V) → String → Map V → Map V
upsert_key v f k [] = (k, v) ∷ []
upsert_key v f k (entry ∷ rest) =
    let others = upsert_key v f k rest in
    if entry.0 == k then (k, f entry.1) ∷ rest else entry ∷ others

abbrev pub on_worker : (WorkerRow → WorkerRow) → String → Stats → Stats
on_worker f id s = record s { workers = update_key f id s.workers }

abbrev pub on_queue : (QueueRow → QueueRow) → String → Stats → Stats
on_queue f queue s = record s { queues = update_key f queue s.queues }

unfoldable pub register_worker : String → String → ℕ → Stats → Stats
register_worker id type now s = record s {
  workers =
      upsert_key
        (record {
          worker_type = type;
          jobs_processed = 0;
          failed_jobs = 0;
          current_job = none;
          last_heartbeat = now;
          started_at = now;
        })
        (λ w. record w { last_heartbeat = now; worker_type = type }) id s.workers;
}

unfoldable pub heartbeat_all : List String → ℕ → Stats → Stats
heartbeat_all [] now s = s
heartbeat_all (id ∷ ids) now s =
    heartbeat_all ids now (on_worker (λ w. record w { last_heartbeat = now }) id s)

-- `processing + 1`
abbrev pub one_more : QueueRow → QueueRow
one_more q = record q { processing = q.processing + 1 }

-- `GREATEST(0, processing - 1)`
abbrev pub one_less : QueueRow → QueueRow
one_less q = record q { processing = q.processing - 1 }

-- The completed jobs, and those of the last minute.
abbrev pub one_completed : ℕ → QueueRow → QueueRow
one_completed now q = record q {
  completed = q.completed + 1;
  completed_60s = if ltb (q.rate_reset_at + 60000) now then 1 else q.completed_60s + 1;
  rate_reset_at = if ltb (q.rate_reset_at + 60000) now then now else q.rate_reset_at;
}

unfoldable pub record_job_start : String → String → ℕ → Stats → Stats
record_job_start id queue now s =
    let started =
      on_worker (λ w. record w { current_job = some queue; last_heartbeat = now }) id s in
    record started {
      queues = upsert_key (one_more (empty_queue now)) one_more queue started.queues;
    }

unfoldable pub record_job_done : String → String → ℕ → Stats → Stats
record_job_done id queue now s =
    on_queue (λ q. one_completed now (one_less q)) queue
      (on_worker
        (λ w. record w {
          jobs_processed = w.jobs_processed + 1;
          current_job = none;
          last_heartbeat = now;
        })
        id s)

unfoldable pub record_job_failed : String → String → ℕ → Stats → Stats
record_job_failed id queue now s =
    on_queue (λ q. record (one_less q) { failed = q.failed + 1 }) queue
      (on_worker
        (λ w. record w {
          failed_jobs = w.failed_jobs + 1;
          current_job = none;
          last_heartbeat = now;
        })
        id s)

abbrev pub one_published : QueueRow → QueueRow
one_published q = record q { published = q.published + 1 }

unfoldable pub record_published : String → ℕ → Stats → Stats
record_published queue now s = record s {
  queues = upsert_key (one_published (empty_queue now)) one_published queue s.queues;
}

-- recordQueueCompleted of the API: a delivery that no worker has started.
unfoldable pub record_queue_completed : String → ℕ → Stats → Stats
record_queue_completed queue now s = on_queue (one_completed now) queue s

pub record QueueStat : Type 0 where
  pub name : String
  pub waiting : ℕ
  pub processing : ℕ
  pub completed : ℕ
  pub failed : ℕ
  pub rate_per_min : ℕ

abbrev pub known_queues : List String
known_queues = "ingest" ∷ "realtime" ∷ "notifications" ∷ "escalation" ∷ "health" ∷ "metrics" ∷ []

-- `row?.published ?? 0`
abbrev pub counter : (QueueRow → ℕ) → Option QueueRow → ℕ
counter f none = 0
counter f (some row) = f row

unfoldable pub queue_stat : Stats → String → QueueStat
queue_stat s name =
    let row = lookup name s.queues in
    record {
      name = name;
      waiting =
          counter (λ r. r.published) row
          - counter (λ r. r.completed) row
          - counter (λ r. r.failed) row
          - counter (λ r. r.processing) row;
      processing = counter (λ r. r.processing) row;
      completed = counter (λ r. r.completed) row;
      failed = counter (λ r. r.failed) row;
      rate_per_min = counter (λ r. r.completed_60s) row;
    }

unfoldable pub list_queues : Stats → List QueueStat
list_queues s = map (queue_stat s) known_queues
