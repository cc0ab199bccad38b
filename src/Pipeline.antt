-- ===== src/Pipeline.antt =====
-- The event consumer of apps/worker/src/index.ts: the handler that the bus calls for a message.
pub mod Accepted
pub mod Opening
use ops_mesh.Base.{ℕ, Bool, String, ◌==◌, string_eq, if◌then◌else◌}
use ops_mesh.Errors.{Result, ok, err}
use ops_mesh.World.{World, Json}
use ops_mesh.Processor.{IngestedEventMessage, ProcessResult}
use ops_mesh.Processor.Process.{Context, process_event}
use ops_mesh.Stats.{Stats, record_job_start, record_job_done, record_job_failed}

pub record Worker : Type 0 where
  pub world : World
  pub stats : Stats

-- How the attempt ended: a failure is counted and thrown again, so that the bus tries again.
abbrev pub finished : ℕ → Stats → World × Result ProcessResult → Worker × Result (Unit {0})
finished now stats (w, ok r) =
    (record { world = w; stats = record_job_done "event-processor" "ingest" now stats }, ok tt)
finished now stats (w, err e) =
    (record { world = w; stats = record_job_failed "event-processor" "ingest" now stats }, err e)

-- The handler, with the time at its end; messages of other types are left alone.
unfoldable pub handle_message :
    Json
    → Context
    → (end_time : ℕ) → Worker
    → (type : String) → IngestedEventMessage
    → Worker × Result (Unit {0})
handle_message j c end_time s type msg =
    if type == "event.ingested"
    then finished end_time (record_job_start "event-processor" "ingest" c.now s.stats)
        (process_event j c s.world msg)
    else (s, ok tt)
