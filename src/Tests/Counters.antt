-- ===== src/Tests/Counters.antt =====
-- Runs of the list of incidents and of the counters of the queues.
use ops_mesh.Base.{
  ℕ, ◌+◌, ◌-◌, ◌≡◌, refl, Option, none, some, List, [], ◌∷◌, String, ◌==◌, string_eq, if◌then◌else◌,
  lookup,
}
use ops_mesh.Errors.{ok}
use ops_mesh.Listing.{Query, str, parse_pagination}
use ops_mesh.Listing.Pages.{pages}
use ops_mesh.Incidents.Listed.{ListOptions, list_incidents, get_incidents, get_incidents_unfiltered}
use ops_mesh.Stats.{Stats, empty_queue, queue_stat}
use ops_mesh.Stats.Counted.{
  Step, start, done, failed_, published_, write_all, count, is_start, is_done, is_failed,
  is_published, is_completed, is_bracketed, queue_stat-write_all,
}
use ops_mesh.Base.{nat_eq}
use ops_mesh.Db.{IncidentRow}
use ops_mesh.Tests.Data.{database}

abbrev of_checkout : ListOptions
of_checkout = record {
  page = some 1;
  limit = some 1;
  status = none;
  severity = none;
  service_id = some "checkout";
  assignee_id = none;
}

abbrev of_checkout_pages : List IncidentRow
of_checkout_pages =
    pages (λ k. (list_incidents database (record of_checkout { page = some k })).data_) 2

abbrev coerce : String → Option ℕ
coerce s = if s == "1" then some 1 else if s == "50" then some 50 else none

-- `?status=RESOLVED&limit=50`
abbrev resolved_query : Query
resolved_query = ("status", str "RESOLVED") ∷ ("limit", str "50") ∷ []

query_is_accepted : parse_pagination coerce resolved_query ≡ ok (record { page = 1; limit = 50 })
unfolding parse_pagination lookup
query_is_accepted = refl

get_incidents_unfiltered_example :
    get_incidents coerce database resolved_query
    ≡ ok (
        list_incidents database (record {
          page = some 1;
          limit = some 50;
          status = none;
          severity = none;
          service_id = none;
          assignee_id = none;
        }))
get_incidents_unfiltered_example =
    get_incidents_unfiltered coerce database resolved_query (record { page = 1; limit = 50 })
      query_is_accepted

abbrev seeded : Stats
seeded = record {
  workers = [];
  queues = ("ingest", empty_queue 0) ∷ ("health", empty_queue 0) ∷ [];
}

-- Two messages, of which one fails once, while a health check runs.
abbrev jobs : List Step
jobs =
    published_ "ingest" 1
    ∷ published_ "ingest" 2
    ∷ start "event-processor" "ingest" 3
    ∷ start "health-check" "health" 4
    ∷ failed_ "event-processor" "ingest" 5
    ∷ start "event-processor" "ingest" 6
    ∷ done "event-processor" "ingest" 7
    ∷ []

queue_stat-write_all_example :
    ((queue_stat (write_all jobs seeded) "ingest").completed
      ≡ count (is_done "ingest") jobs + count (is_completed "ingest") jobs)
    × ((queue_stat (write_all jobs seeded) "ingest").failed ≡ count (is_failed "ingest") jobs)
    × ((queue_stat (write_all jobs seeded) "ingest").processing
          + count (is_done "ingest") jobs
          + count (is_failed "ingest") jobs
        ≡ count (is_start "ingest") jobs)
    × ((queue_stat (write_all jobs seeded) "ingest").waiting
        ≡ count (is_published "ingest") jobs
          - (count (is_start "ingest") jobs + count (is_completed "ingest") jobs))
queue_stat-write_all_example =
    queue_stat-write_all "ingest" 0 jobs seeded (unfold lookup in refl)
      (unfold is_bracketed in refl)
