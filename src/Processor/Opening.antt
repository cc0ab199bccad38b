-- ===== src/Processor/Opening.antt =====
-- What an event of a fingerprint without an open incident leads to.
use ops_mesh.Base.{
  ℕ, ◌≡◌, refl, sym, ◌∙◌, ap, subst, true, false, Option, none, some, [], ◌∷◌, ◌++◌, String,
  string_eq, find, any,
}
use ops_mesh.Types.{IncidentSeverity, resolved}
use ops_mesh.Shared.StateMachine.{status_eq}
use ops_mesh.Db.{Db, IncidentRow, UserRow, has_id}
use ops_mesh.Errors.{Result, ok}
use ops_mesh.World.{World, Json, cached_incident, refresh_dedupe_window}
use ops_mesh.World.Transaction.{transaction-result}
use ops_mesh.Processor.{
  IngestedEventMessage, ProcessResult, Outcome, store_event, has_key, has_service_id, has_event_id,
}
use ops_mesh.Processor.Create.{
  create_incident_record, new_incident, with_incident, on_call_engineer,
}
use ops_mesh.Processor.Process.{
  Context, count_in_window, severity_of_event, create_params, open_incident, process_event,
  announce, notify_assignee, assignee,
}
use ops_mesh.Processor.NewRow.{IsNewIncident, new_incident-IsNewIncident}
use ops_mesh.Processor.Keeps.{
  store_event-tables, refresh_dedupe_window-db, with_incident-tables, enqueue-tables,
}
use ops_mesh.Processor.Tables.{IsDedupeUnique}
use ops_mesh.Processor.Created.{
  find_open-none, find_open-resolved, created, kept_as_is, store_event-stores,
}
-- What an opening leaves, from the database `d` that it starts with.
use ops_mesh.Processor.Fresh.{process_event-opens}

abbrev IsOpening : Context → IngestedEventMessage → World × Result ProcessResult → Db → ℕ → Type 0
IsOpening c msg r d n =
    let sev = severity_of_event d msg n in
    let u = on_call_engineer d msg.service_id c.now in
    (r.0.db.incidents
      ≡ d.incidents ++ new_incident (create_params msg sev) c.incident_id u c.now ∷ [])
    × (r.0.db.links
        ≡ d.links ++ record { incident_id = c.incident_id; event_id = msg.event_id } ∷ [])
    × (r.1
        ≡ ok (record {
          outcome = Outcome.incident_created;
          incident_id = c.incident_id;
          event_id = msg.event_id;
        }))

module _ (j : Json) (c : Context) where
  announce-ok :
      (msg : IngestedEventMessage) (w : World) (sev : IncidentSeverity) (db : Db) (id : String)
      → ((announce j c w msg sev (db, ok id)).0.db.incidents ≡ db.incidents)
        × ((announce j c w msg sev (db, ok id)).0.db.links ≡ db.links)
        × ((announce j c w msg sev (db, ok id)).1
            ≡ ok (record {
              outcome = Outcome.incident_created;
              incident_id = id;
              event_id = msg.event_id;
            }))
  announce-ok msg w sev db id =
      let w1 = refresh_dedupe_window j (record w { db = db }) msg.fingerprint id c.now in
      let same = refresh_dedupe_window-db j (record w { db = db }) msg.fingerprint id c.now in
      let (e, f) = notify-tables msg sev id (assignee w1.db id) w1.db in
      (e ∙ ap (λ d. d.incidents) same, f ∙ ap (λ d. d.links) same, refl)
    where
      notify-tables :
          (msg : IngestedEventMessage) (sev : IncidentSeverity) (id : String) (o : Option UserRow)
          (db : Db)
          → ((notify_assignee c msg sev id o db).incidents ≡ db.incidents)
            × ((notify_assignee c msg sev id o db).links ≡ db.links)
      notify-tables msg sev id none db = (refl, refl)
      notify-tables msg sev id (some u) db =
          let (e, f, _) = enqueue-tables c.api_url c.notification_ids c.now db _ u.email _ in (e, f)

  open_incident-new :
      (msg : IngestedEventMessage) (w : World) (n : ℕ)
      → find (has_key msg.fingerprint) w.db.incidents ≡ none
      → any (has_id c.incident_id) w.db.incidents ≡ false
      → any (has_service_id msg.service_id) w.db.services ≡ true
      → any (has_event_id msg.event_id) w.db.events ≡ true
      → (let sev = severity_of_event w.db msg n in
          let u = on_call_engineer w.db msg.service_id c.now in
          let r = open_incident j c w msg n in
          (r.0.db.incidents
            ≡ w.db.incidents ++ new_incident (create_params msg sev) c.incident_id u c.now ∷ [])
          × (r.0.db.links
              ≡ w.db.links ++ record { incident_id = c.incident_id; event_id = msg.event_id } ∷ [])
          × (r.1
              ≡ ok (record {
                outcome = Outcome.incident_created;
                incident_id = c.incident_id;
                event_id = msg.event_id;
              })))
  unfolding open_incident
  open_incident-new msg w n free new service event =
      let sev = severity_of_event w.db msg n in
      let p = create_params msg sev in
      let u = on_call_engineer w.db msg.service_id c.now in
      let db' = with_incident w.db p c.incident_id u c.now in
      let wrote : create_incident_record p c.incident_id c.now w.db ≡ ok (db', c.incident_id) =
        created p c.incident_id c.now w.db free new service event in
      let e = ap (announce j c w msg sev) (
        transaction-result (create_incident_record p c.incident_id c.now) w.db
          (ok (db', c.incident_id)) wrote) in
      let (f, g, h) = announce-ok msg w sev db' c.incident_id in
      let (f', g') = with_incident-tables w.db p c.incident_id u c.now in
      (
        ap (λ r. r.0.db.incidents) e ∙ f ∙ f',
        ap (λ r. r.0.db.links) e ∙ g ∙ g',
        ap (λ r. r.1) e ∙ h,
      )

  open_incident-existing :
      (msg : IngestedEventMessage) (w : World) (n : ℕ) (r : IncidentRow)
      → find (has_key msg.fingerprint) w.db.incidents ≡ some r
      → (let d = open_incident j c w msg n in
          (d.0.db.incidents ≡ w.db.incidents)
          × (d.0.db.links ≡ w.db.links)
          × (d.1
              ≡ ok (record {
                outcome = Outcome.incident_created;
                incident_id = r.id;
                event_id = msg.event_id;
              })))
  unfolding open_incident
  open_incident-existing msg w n r h =
      let sev = severity_of_event w.db msg n in
      let p = create_params msg sev in
      let kept : create_incident_record p c.incident_id c.now w.db ≡ ok (w.db, r.id) =
        kept_as_is p c.incident_id c.now w.db r h in
      let e = ap (announce j c w msg sev) (
        transaction-result (create_incident_record p c.incident_id c.now) w.db (ok (w.db, r.id))
          kept) in
      let (f, g, says) = announce-ok msg w sev w.db r.id in
      (ap (λ r. r.0.db.incidents) e ∙ f, ap (λ r. r.0.db.links) e ∙ g, ap (λ r. r.1) e ∙ says)

  -- The incident that the first event of a fingerprint adds.
  process_event-adds :
      (msg : IngestedEventMessage) (w : World) (db : Db)
      → store_event msg w.db ≡ ok db
      → (cached_incident j w msg.fingerprint c.now).1 ≡ none
      → find (has_key msg.fingerprint) db.incidents ≡ none
      → any (has_id c.incident_id) db.incidents ≡ false
      → any (has_service_id msg.service_id) db.services ≡ true
      → (let sev = severity_of_event db msg (count_in_window w msg.fingerprint c).1 in
          let u = on_call_engineer db msg.service_id c.now in
          let r = process_event j c w msg in
          (r.0.db.incidents
            ≡ w.db.incidents ++ new_incident (create_params msg sev) c.incident_id u c.now ∷ [])
          × (r.0.db.links
              ≡ w.db.links ++ record { incident_id = c.incident_id; event_id = msg.event_id } ∷ [])
          × (r.1
              ≡ ok (record {
                outcome = Outcome.incident_created;
                incident_id = c.incident_id;
                event_id = msg.event_id;
              })))
  process_event-adds msg w db h miss free new service =
      let tables = store_event-tables msg w.db db h in
      let closed =
        find_open-none msg.fingerprint w.db.incidents
          (ap (find (has_key msg.fingerprint)) (sym tables.0) ∙ free) in
      let (w', n, same, count, e) = process_event-opens j c msg w db h miss closed in
      let opened : IsOpening c msg (open_incident j c w' msg n) w'.db n =
        open_incident-new msg w' n
          (ap (λ d. find (has_key msg.fingerprint) d.incidents) same ∙ free)
          (ap (λ d. any (has_id c.incident_id) d.incidents) same ∙ new)
          (ap (λ d. any (has_service_id msg.service_id) d.services) same ∙ service)
          (ap (λ d. any (has_event_id msg.event_id) d.events) same
            ∙ store_event-stores msg w.db db h) in
      let (f, g, says) =
        subst (λ r. IsOpening c msg r db (count_in_window w msg.fingerprint c).1) (sym e)
          (subst (IsOpening c msg (open_incident j c w' msg n) db) count
            (subst (λ d. IsOpening c msg (open_incident j c w' msg n) d n) same opened)) in
      (
        f
            ∙ ap
                (λ rs.
                  rs
                  ++ new_incident
                      (create_params msg
                        (severity_of_event db msg (count_in_window w msg.fingerprint c).1))
                      c.incident_id (on_call_engineer db msg.service_id c.now) c.now
                    ∷ [])
                tables.0,
        g
            ∙ ap (λ ls. ls ++ record { incident_id = c.incident_id; event_id = msg.event_id } ∷ [])
                tables.1,
        says,
      )

  -- The first event of a fingerprint: with no incident of the fingerprint in the cache or in the table,
  -- and with a generated id that is new, the event adds exactly one row to the incidents: of that id and
  -- of the event's service and fingerprint, titled by service and type of event, described by the
  -- event's message, in status OPEN, with the severity that is calculated from the service's
  -- criticality, the event's severity and environment and the count of the window, the priority of the
  -- same rank, assigned to the engineer on call for the service, or to nobody if there is none, neither
  -- acknowledged nor resolved, with level 0 and a count of one, created and updated now. The links grow
  -- by exactly the one of that incident and the event, and the outcome names both.
  pub process_event-first :
      (msg : IngestedEventMessage) (w : World) (db : Db)
      → store_event msg w.db ≡ ok db
      → (cached_incident j w msg.fingerprint c.now).1 ≡ none
      → find (has_key msg.fingerprint) db.incidents ≡ none
      → any (has_id c.incident_id) db.incidents ≡ false
      → any (has_service_id msg.service_id) db.services ≡ true
      → (let r = process_event j c w msg in
          (row : IncidentRow) × (r.0.db.incidents ≡ w.db.incidents ++ row ∷ [])
          × IsNewIncident db msg (count_in_window w msg.fingerprint c).1 c.incident_id c.now row
          × (r.0.db.links
              ≡ w.db.links ++ record { incident_id = c.incident_id; event_id = msg.event_id } ∷ [])
          × (r.1
              ≡ ok (record {
                outcome = Outcome.incident_created;
                incident_id = c.incident_id;
                event_id = msg.event_id;
              })))
  process_event-first msg w db h miss free new service =
      let n = (count_in_window w msg.fingerprint c).1 in
      let (rows, links, says) = process_event-adds msg w db h miss free new service in
      (
        new_incident (create_params msg (severity_of_event db msg n)) c.incident_id
            (on_call_engineer db msg.service_id c.now) c.now,
        rows,
        new_incident-IsNewIncident db msg n c.incident_id c.now,
        links,
        says,
      )

  -- The burst after a resolution: with no cached incident, where the incident of the fingerprint is
  -- resolved, the event opens no incident and is linked to none, because the resolved one still holds
  -- the unique key; the outcome nevertheless says that an incident was created, and names the resolved
  -- one.
  pub process_event-resolved :
      (msg : IngestedEventMessage) (w : World) (db : Db) (r : IncidentRow)
      → store_event msg w.db ≡ ok db
      → (cached_incident j w msg.fingerprint c.now).1 ≡ none
      → IsDedupeUnique w.db.incidents
      → find (has_key msg.fingerprint) w.db.incidents ≡ some r
      → r.status ≡ resolved
      → (let d = process_event j c w msg in
          (d.0.db.incidents ≡ w.db.incidents)
          × (d.0.db.links ≡ w.db.links)
          × (d.1
              ≡ ok (record {
                outcome = Outcome.incident_created;
                incident_id = r.id;
                event_id = msg.event_id;
              })))
  process_event-resolved msg w db r h miss u found res =
      let closed = find_open-resolved msg.fingerprint w.db.incidents r u found res in
      let (w', n, same, _, e) = process_event-opens j c msg w db h miss closed in
      let tables = store_event-tables msg w.db db h in
      let kept = ap (λ d. d.incidents) same ∙ tables.0 in
      let (f, g, says) =
        open_incident-existing msg w' n r (ap (find (has_key msg.fingerprint)) kept ∙ found) in
      (
        ap (λ d. d.0.db.incidents) e ∙ f ∙ kept,
        ap (λ d. d.0.db.links) e ∙ g ∙ ap (λ d. d.links) same ∙ tables.1,
        ap (λ d. d.1) e ∙ says,
      )
