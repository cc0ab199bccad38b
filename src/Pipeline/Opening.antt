-- ===== src/Pipeline/Opening.antt =====
-- From the API to an incident: an event that was accepted, and the delivery of its message to the worker.
use ops_mesh.Base.{
  ℕ, ◌≡◌, refl, sym, ◌∙◌, ap, subst, true, false, Option, none, [], ◌∷◌, ◌++◌, String, string_eq,
  any, find, arith,
}
use ops_mesh.Db.{Db, IncidentRow, has_id}
use ops_mesh.Errors.{Result, ok, err}
use ops_mesh.World.{World, Json, cached_incident}
use ops_mesh.Processor.{IngestedEventMessage, ProcessResult, store_event, has_key, has_service_id}
use ops_mesh.Processor.NewRow.{IsNewIncident}
use ops_mesh.Processor.Process.{Context, process_event, count_in_window}
use ops_mesh.Processor.Opening.{process_event-first}
use ops_mesh.Processor.Created.{any-append_event}
use ops_mesh.Stats.{Stats, record_job_start}
use ops_mesh.Ingest.{
  IngestEventInput, IngestResult, Outside, Call, Intake, ingest_event, with_event, event_row,
  message_for,
}
use ops_mesh.Pipeline.{Worker, finished, handle_message}
use ops_mesh.Pipeline.Accepted.{Accepted, ingest_event-Accepted}

-- The row of the event is there, so the processor stores no second one.
store_event-with_event :
    (msg : IngestedEventMessage) (db : Db)
    → store_event msg (with_event msg db) ≡ ok (with_event msg db)
unfolding store_event
store_event-with_event msg db =
    rw (any-append_event msg.event_id db.events (event_row msg) refl) refl

module _ (j : Json) where
  finished-tables :
      (now : ℕ) (stats : Stats) (p : World × Result ProcessResult) (res : ProcessResult)
      → p.1 ≡ ok res
      → ((finished now stats p).0.world ≡ p.0) × ((finished now stats p).1 ≡ ok tt)
  finished-tables now stats (w, ok r) res h = (refl, refl)
  finished-tables now stats (w, err e) res h = absurd (ground (arith, h))

  handled :
      (c : Context) (end_time : ℕ) (w : Worker) (msg : IngestedEventMessage) (res : ProcessResult)
      → (process_event j c w.world msg).1 ≡ ok res
      → ((handle_message j c end_time w "event.ingested" msg).0.world
          ≡ (process_event j c w.world msg).0)
        × ((handle_message j c end_time w "event.ingested" msg).1 ≡ ok tt)
  unfolding handle_message
  handled c end_time w msg res h =
      finished-tables end_time (record_job_start "event-processor" "ingest" c.now w.stats)
        (process_event j c w.world msg) res h

  -- Where the API accepted an event and published it, and the worker, on the same database and with
  -- whatever Redis, handles that message while there is no incident of the fingerprint, then the message
  -- is of the event's fingerprint and severity and of a service that exists, and the worker adds exactly
  -- one row to the incidents: in status OPEN, of that service and fingerprint, with the severity
  -- that is calculated from the service's criticality, the event and the count of the window and the
  -- priority of the same rank, assigned to the service's engineer on call, or to nobody if there is
  -- none, with a count of one and the other columns as for any new incident. It links the event to
  -- that incident, and nothing else, and acknowledges the message.
  pub ingest_event-opens :
      (o : Outside) (call : Call) (s t : Intake) (input : IngestEventInput) (auth : Option String)
      (res : IngestResult) (c : Context) (end_time : ℕ) (w : Worker)
      → ingest_event o call s input auth ≡ (t, ok res)
      → res.published ≡ true
      → w.world.db ≡ t.world.db
      → (cached_incident j w.world (o.calculate_fingerprint input) c.now).1 ≡ none
      → find (has_key (o.calculate_fingerprint input)) s.world.db.incidents ≡ none
      → any (has_id c.incident_id) s.world.db.incidents ≡ false
      → (msg : IngestedEventMessage) × (t.queue ≡ s.queue ++ msg ∷ [])
        × (msg.fingerprint ≡ o.calculate_fingerprint input)
        × (msg.severity ≡ input.severity)
        × (any (has_service_id msg.service_id) s.world.db.services ≡ true)
        × (let r = handle_message j c end_time w "event.ingested" msg in
            (row : IncidentRow) × (r.0.world.db.incidents ≡ s.world.db.incidents ++ row ∷ [])
            × IsNewIncident t.world.db msg
                (count_in_window w.world msg.fingerprint c).1
                c.incident_id
                c.now
                row
            × (r.0.world.db.links
                ≡ s.world.db.links
                  ++ record { incident_id = c.incident_id; event_id = call.event_id } ∷ [])
            × (r.1 ≡ ok tt))
  ingest_event-opens o call s t input auth res c end_time w taken published same miss free new =
      let (svc, queue, db, known) =
        subst (Accepted o call s input) taken (ingest_event-Accepted o call s input auth)
          published in
      let msg : IngestedEventMessage = message_for o call input svc in
      let stored : store_event msg w.world.db ≡ ok t.world.db =
        ap (store_event msg) (same ∙ db) ∙ store_event-with_event msg s.world.db ∙ ap ok (sym db) in
      let (row, incidents, is_new, links, answer) =
        process_event-first j c msg w.world t.world.db stored miss
          (ap (λ d. find (has_key msg.fingerprint) d.incidents) db ∙ free)
          (ap (λ d. any (has_id c.incident_id) d.incidents) db ∙ new)
          (ap (λ d. any (has_service_id msg.service_id) d.services) db ∙ known) in
      let (left, done) = handled c end_time w msg _ answer in
      (
        msg,
        queue,
        refl,
        refl,
        known,
        (
          row,
          ap (λ v. v.db.incidents) left ∙ incidents ∙ ap (λ d. d.incidents ++ row ∷ []) (same ∙ db),
          is_new,
          ap (λ v. v.db.links) left
              ∙ links
              ∙ ap
                  (λ d.
                    d.links ++ record { incident_id = c.incident_id; event_id = msg.event_id } ∷ [])
                  (same ∙ db),
          done,
        ),
      )
