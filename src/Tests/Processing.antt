-- ===== src/Tests/Processing.antt =====
-- Runs of the event processor and of the escalation worker.
use ops_mesh.Base.{
  ℕ, ◌≡◌, refl, true, false, none, some, [], ◌∷◌, ◌++◌, String, ◌⊎◌, arith, lookup, any,
}
use ops_mesh.Types.{acknowledged}
use ops_mesh.Db.{Db, IncidentRow, ShiftRow, UserRow}
use ops_mesh.Errors.{Result, ok}
use ops_mesh.World.{World, cached_incident, refresh_dedupe_window}
use ops_mesh.Redis.{new_redis, get, live}
use ops_mesh.Incidents.Rows.{get_incident}
use ops_mesh.Incidents.Routes.{Request, handle}
use ops_mesh.Processor.{ProcessResult, Outcome, store_event}
use ops_mesh.Processor.NewRow.{IsNewIncident}
use ops_mesh.Processor.OnDuty.{IsLeast, covers, can_respond, on_call_engineer_lem}
use ops_mesh.Processor.Create.{on_call_engineer}
use mathlib.Core.List.{Memᴰ}
use ops_mesh.Processor.Process.{count_in_window, process_event}
use ops_mesh.Processor.Invariant.{IsLinked}
use ops_mesh.Processor.Keeps.{process_event-IsLinked}
use ops_mesh.Processor.Opening.{process_event-first, process_event-resolved}
use ops_mesh.Base.{insert, ap, eq_iff, ◌≢◌}
use ops_mesh.Redis.{set, deadline, sliding_window_add}
use ops_mesh.Processor.{find_open_incident_by_fingerprint, link_event, is_linked}
use ops_mesh.Processor.Process.{known_incident, update_existing}
use ops_mesh.Processor.Redelivery.{process_event_twice}
use ops_mesh.Escalation.{
  is_due, steps_for_incident, next_step, policies_of, delay_up_to, delay_for_next_step,
}
use ops_mesh.Escalation.Step.{poll, escalate_once}
use ops_mesh.Escalation.StepUp.{IsRaisable, IsStepUp, poll-row}
use ops_mesh.Escalation.Acknowledged.{acknowledged_stays, escalate_once-unchecked}
use ops_mesh.Tests.Data.{
  json, runtime, world, database, database-IsSound, database-IsLinked, auth, checkout, first,
  second, context, message_of, page,
}

process_event-IsLinked_example :
    IsLinked
      (process_event json context world (message_of "evt2" "f1")).0.db.incidents
      (process_event json context world (message_of "evt2" "f1")).0.db.links
process_event-IsLinked_example =
    process_event-IsLinked json context (message_of "evt2" "f1") world database-IsLinked

-- The database once the event is stored.
abbrev with_event : String → Db
with_event fingerprint = record database {
  events =
      database.events
      ++ record {
        id = "evt2";
        service_id = "checkout";
        event_type = "timeout";
        severity = (message_of "evt2" fingerprint).severity;
        message = "timeout";
        environment = (message_of "evt2" fingerprint).environment;
        timestamp = 0;
        request_id = none;
        fingerprint = fingerprint;
        metadata = none;
      }
        ∷ [];
}

stored :
    (fingerprint : String)
    → store_event (message_of "evt2" fingerprint) database ≡ ok (with_event fingerprint)
unfolding store_event
stored fingerprint = refl

missed : (fingerprint : String) → (cached_incident json world fingerprint 1000).1 ≡ none
unfolding cached_incident get live new_redis lookup
missed fingerprint = refl

abbrev created : World × Result ProcessResult
created = process_event json context world (message_of "evt2" "f3")

process_event-first_example :
    (row : IncidentRow) × (created.0.db.incidents ≡ database.incidents ++ row ∷ [])
    × IsNewIncident
        (with_event "f3")
        (message_of "evt2" "f3")
        (count_in_window world "f3" context).1
        "inc3"
        1000
        row
    × (created.0.db.links
        ≡ database.links ++ record { incident_id = "inc3"; event_id = "evt2" } ∷ [])
    × (created.1
        ≡ ok (record {
          outcome = Outcome.incident_created;
          incident_id = "inc3";
          event_id = "evt2";
        }))
process_event-first_example =
    process_event-first json context (message_of "evt2" "f3") world (with_event "f3") (stored "f3")
      (missed "f3") refl refl refl

-- Anna has the shift of the first second.
abbrev on_shift : Db
on_shift = record database {
  schedules =
      record {
        id = "primary";
        team_id = "core";
        name = "primary";
        timezone = "UTC";
        rotation_order = "anna" ∷ [];
        start_time = "09:00";
        end_time = "17:00";
        escalation_target_id = none;
      }
      ∷ [];
  shifts =
      record { id = "s1"; schedule_id = "primary"; user_id = "anna"; starts_at = 0; ends_at = 1001 }
      ∷ [];
}

on_call_engineer_lem_example :
    ((s : ShiftRow) × IsLeast (λ x. x.ends_at) (covers on_shift "core" 1000) on_shift.shifts s
      × ((u : UserRow) × Memᴰ u on_shift.users
          × (u.id ≡ s.user_id)
          × (on_call_engineer on_shift "checkout" 1000 ≡ some u)))
    ⊎ ((any (covers on_shift "core" 1000) on_shift.shifts ≡ false)
        × ((u : UserRow) × IsLeast (λ x. x.created_at) (can_respond "core") on_shift.users u
            × (on_call_engineer on_shift "checkout" 1000 ≡ some u)))
    ⊎ ((any (covers on_shift "core" 1000) on_shift.shifts ≡ false)
        × (any (can_respond "core") on_shift.users ≡ false)
        × (on_call_engineer on_shift "checkout" 1000 ≡ none))
on_call_engineer_lem_example =
    on_call_engineer_lem on_shift "checkout" checkout "core" 1000 refl refl refl

abbrev burst : World × Result ProcessResult
burst = process_event json context world (message_of "evt2" "f2")

process_event-resolved_example :
    (burst.0.db.incidents ≡ database.incidents)
    × (burst.0.db.links ≡ database.links)
    × (burst.1
        ≡ ok (record {
          outcome = Outcome.incident_created;
          incident_id = "inc2";
          event_id = "evt2";
        }))
process_event-resolved_example =
    process_event-resolved json context (message_of "evt2" "f2") world (with_event "f2") second
      (stored "f2") (missed "f2") database-IsLinked.unique refl refl

abbrev ids : ℕ → ℕ → String
ids k n = "id"

poll-row_example :
    (r' : IncidentRow) × (get_incident (poll runtime world ids 300000).0.db "inc1" ≡ some r')
    × ((r' ≡ first)
        ⊎ (IsRaisable (steps_for_incident runtime database first) 300000 first
            × IsStepUp 300000 first r'))
poll-row_example =
    poll-row runtime world ids 300000 "inc1" first database-IsSound.keyed
      (unfold get_incident in refl)

-- That incident is due then, and not a millisecond earlier.
due_at :
    (is_due runtime database 300000 first ≡ true) × (is_due runtime database 299999 first ≡ false)
unfolding is_due delay_for_next_step steps_for_incident policies_of delay_up_to
due_at = (refl, refl)

acknowledged_stays_example :
    get_incident
      (poll runtime (handle json world auth "inc2" Request.reopen 20).0 ids 900000).0.db
      "inc2"
    ≡ get_incident (handle json world auth "inc2" Request.reopen 20).0.db "inc2"
acknowledged_stays_example =
    acknowledged_stays json runtime world auth "inc2" Request.reopen 20 900000 ids "inc2" second 5
      database-IsSound (unfold get_incident in refl) refl

-- A poll read the row while it was open, and it was acknowledged before the step.
abbrev first_acknowledged : IncidentRow
first_acknowledged = record first { status = acknowledged; acknowledged_at = some 3 }

abbrev world_since : World
world_since = record world { db = record database { incidents = first_acknowledged ∷ second ∷ [] } }

page_is_next : next_step (steps_for_incident runtime world_since.db first) first ≡ some page
unfolding steps_for_incident policies_of
page_is_next = refl

escalate_once-unchecked_example :
    (r' : IncidentRow) × (get_incident
        (escalate_once runtime world_since first (ids 0) 300000).0.db
        "inc1"
      ≡ some r')
    × IsStepUp 300000 first_acknowledged r'
escalate_once-unchecked_example =
    escalate_once-unchecked runtime world_since first page first_acknowledged (ids 0) 300000
      page_is_next (unfold get_incident in refl)

-- A second event of the open incident's fingerprint, and its redelivery a second later.
abbrev delivered : World × Result ProcessResult
delivered = process_event json context world (message_of "evt2" "f1")

abbrev updated : ProcessResult
updated = record { outcome = Outcome.incident_updated; incident_id = "inc1"; event_id = "evt2" }

delivered_updates : (delivered.1 ≡ ok updated) × (is_linked delivered.0.db "inc1" "evt2" ≡ true)
unfolding process_event store_event count_in_window sliding_window_add known_incident
    cached_incident get live lookup insert new_redis find_open_incident_by_fingerprint
    update_existing link_event is_linked refresh_dedupe_window set deadline
delivered_updates = (refl, refl)

named : updated.incident_id ≢ ""
named e = let f = (eq_iff "inc1" "").1 e in ground (arith, f)

process_event_twice_example :
    ((process_event json (record context { now = 2000 }) delivered.0 (message_of "evt2" "f1")).0.db
      ≡ delivered.0.db)
    × ((process_event json (record context { now = 2000 }) delivered.0 (message_of "evt2" "f1")).1
        ≡ ok updated)
process_event_twice_example =
    process_event_twice json context (record context { now = 2000 }) (message_of "evt2" "f1") world
      delivered.0 updated refl (ap (λ r. (delivered.0, r)) delivered_updates.0) named
      delivered_updates.1 (omega arith)
