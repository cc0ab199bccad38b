-- ===== src/Processor/Redelivery.antt =====
-- event.processor.ts: "may be invoked multiple times for the same event".
use ops_mesh.Base.{
  ℕ, ◌+◌, ◌*◌, ◌<◌, ◌≡◌, refl, sym, ◌∙◌, ap, subst, ◌≢◌, true, false, Option, none, some, String,
  ◌==◌, string_eq, any, is_some, arith, Option-cases, eq_iff, inl, inr,
}
use ops_mesh.Types.{IncidentSeverity}
use ops_mesh.Db.{Db, UserRow}
use ops_mesh.Errors.{Result, ok, err}
use ops_mesh.World.{
  World, Json, transaction, cached_incident, refresh_dedupe_window, emit, event_ingested,
  fingerprint_window_seconds,
}
use ops_mesh.World.Cache.{cached_incident-db, cached_incident-refresh_dedupe_window}
use ops_mesh.Incidents.Consistent.{transaction_keeps}
use ops_mesh.Processor.{
  IngestedEventMessage, ProcessResult, Outcome, store_event, link_event, is_linked, has_event_id,
}
use ops_mesh.Processor.Create.{
  CreateParams, create_incident_record, with_incident, on_call_engineer,
}
use ops_mesh.Processor.Process.{
  Context, count_in_window, severity_of_event, create_params, assignee, notify_assignee, linked,
  update_existing, announce, open_incident, known_incident, continue, stored, process_event,
}
use ops_mesh.Processor.Keeps.{
  enqueue-tables, refresh_dedupe_window-db, count_in_window-db, create_incident_record-ok,
}
use ops_mesh.Processor.Fresh.{cached-count, cached-emit}
use ops_mesh.Processor.Created.{store_event-stores}

abbrev HasEvent : IngestedEventMessage → Db → Type 0
HasEvent msg db = any (has_event_id msg.event_id) db.events ≡ true

with_incident-events :
    (db : Db) (p : CreateParams) (id : String) (u : Option UserRow) (now : ℕ)
    → (with_incident db p id u now).events ≡ db.events
with_incident-events db p id none now = refl
with_incident-events db p id (some u) now = refl

link_event-events :
    (db db' : Db) (id event : String) (now : ℕ)
    → link_event db id event now ≡ ok db'
    → db'.events ≡ db.events
unfolding link_event
link_event-events db db' id event now h = ground arith

module _ (j : Json) where
  -- A read of the dedupe cache depends on the cache only.
  cached-same :
      (w v : World) (fingerprint : String) (now : ℕ)
      → w.cache ≡ v.cache
      → (cached_incident j w fingerprint now).1 ≡ (cached_incident j v fingerprint now).1
  unfolding cached_incident
  cached-same w v fingerprint now e = ground (arith, e)

  cached-refresh :
      (w : World) (fingerprint id : String) (now later : ℕ)
      → is_some w.cache ≡ true
      → later < now + fingerprint_window_seconds * 1000
      → (cached_incident j (refresh_dedupe_window j w fingerprint id now) fingerprint later).1
        ≡ some id
  cached-refresh w fingerprint id now later up lt = elim (Option-cases w.cache) [
    | inl e ↦ absurd (ground (arith, e))
    | inr (r, e) ↦ cached_incident-refresh_dedupe_window j w r fingerprint id now later e lt
  ]

  module _ (c : Context) (msg : IngestedEventMessage) (later : ℕ)
      (soon : later < c.now + fingerprint_window_seconds * 1000) where
    -- What a delivery leaves behind, if it ended without an error.
    abbrev IsNoted : World × Result ProcessResult → Type 0
    IsNoted (w, err e) = Unit
    IsNoted (w, ok res) =
        ((cached_incident j w msg.fingerprint later).1 ≡ some res.incident_id) × HasEvent msg w.db

    linked-IsNoted :
        (w : World) (id : String) (r : Result Db)
        → link_event w.db id msg.event_id c.now ≡ r
        → is_some w.cache ≡ true
        → HasEvent msg w.db
        → IsNoted (linked j c w msg id r)
    linked-IsNoted w id (err e) h up there = tt
    linked-IsNoted w id (ok db) h up there =
        let w' : World = record w { db = db } in
        (
          cached-same (linked j c w msg id (ok db)).0
                (refresh_dedupe_window j w' msg.fingerprint id c.now) msg.fingerprint later refl
              ∙ cached-refresh w' msg.fingerprint id c.now later up soon,
          ap (λ d. any (has_event_id msg.event_id) d.events)
                (refresh_dedupe_window-db j w' msg.fingerprint id c.now)
              ∙ ap (any (has_event_id msg.event_id))
                  (link_event-events w.db db id msg.event_id c.now h)
              ∙ there,
        )

    notify-events :
        (sev : IncidentSeverity) (id : String) (o : Option UserRow) (db : Db)
        → (notify_assignee c msg sev id o db).events ≡ db.events
    notify-events sev id none db = refl
    notify-events sev id (some u) db =
        (enqueue-tables c.api_url c.notification_ids c.now db _ u.email _).2

    announce-IsNoted :
        (w : World) (sev : IncidentSeverity) (d : Db × Result String)
        → is_some w.cache ≡ true
        → HasEvent msg d.0
        → IsNoted (announce j c w msg sev d)
    announce-IsNoted w sev (db, err e) up there = tt
    announce-IsNoted w sev (db, ok id) up there =
        let w' : World = record w { db = db } in
        let w1 = refresh_dedupe_window j w' msg.fingerprint id c.now in
        (
          cached-same (announce j c w msg sev (db, ok id)).0 w1 msg.fingerprint later refl
              ∙ cached-refresh w' msg.fingerprint id c.now later up soon,
          ap (any (has_event_id msg.event_id)) (notify-events sev id (assignee w1.db id) w1.db)
              ∙ ap (λ d. any (has_event_id msg.event_id) d.events)
                  (refresh_dedupe_window-db j w' msg.fingerprint id c.now)
              ∙ there,
        )

    create-keeps :
        (p : CreateParams) (id : String) (now : ℕ) (db db' : Db) (i : String)
        → create_incident_record p id now db ≡ ok (db', i)
        → HasEvent msg db
        → HasEvent msg db'
    create-keeps p id now db db' i h there = elim (create_incident_record-ok p id now db db' i h) [
      | inl (e, _) ↦ subst (HasEvent msg) (sym e) there
      | inr (_, _, _, e) ↦ subst (HasEvent msg) (sym e) (
          ap (any (has_event_id msg.event_id))
            (with_incident-events db p id (on_call_engineer db p.service_id now) now)
          ∙ there)
    ]

    continue-IsNoted :
        (n : ℕ) (k : World × Option String)
        → is_some k.0.cache ≡ true
        → HasEvent msg k.0.db
        → IsNoted (continue j c msg n k)
    unfolding update_existing open_incident
    continue-IsNoted n (w, some id) up there =
        linked-IsNoted w id (link_event w.db id msg.event_id c.now) refl up there
    continue-IsNoted n (w, none) up there =
        let sev = severity_of_event w.db msg n in
        let p = create_params msg sev in
        announce-IsNoted w sev (transaction (create_incident_record p c.incident_id c.now) w.db) up
          (transaction_keeps (HasEvent msg) (create_incident_record p c.incident_id c.now) w.db
            there (λ db' i h. create-keeps p c.incident_id c.now w.db db' i h there))

    known-up :
        (w : World)
        → is_some w.cache ≡ true
        → is_some
            (known_incident j c (count_in_window w msg.fingerprint c).0 msg.fingerprint).0.cache
          ≡ true
    unfolding known_incident cached_incident count_in_window
    known-up w up = ground arith

    known-db :
        (w : World)
        → (known_incident j c (count_in_window w msg.fingerprint c).0 msg.fingerprint).0.db ≡ w.db
    unfolding known_incident
    known-db w =
        (cached_incident-db j (count_in_window w msg.fingerprint c).0 msg.fingerprint c.now).0
        ∙ count_in_window-db w msg.fingerprint c

    process_event-IsNoted : (w : World) → is_some w.cache ≡ true → IsNoted (process_event j c w msg)
    unfolding process_event
    process_event-IsNoted w up = go (store_event msg w.db) refl
      where
        go : (r : Result Db) → store_event msg w.db ≡ r → IsNoted (stored j c w msg r)
        go (err e) h = tt
        go (ok db) h =
            let w1 : World = emit (record w { db = db }) (event_ingested msg.event_id) in
            continue-IsNoted (count_in_window w1 msg.fingerprint c).1
              (known_incident j c (count_in_window w1 msg.fingerprint c).0 msg.fingerprint)
              (known-up w1 up)
              (ap (λ d. any (has_event_id msg.event_id) d.events) (known-db w1)
                ∙ store_event-stores msg w.db db h)

  known_hit :
      (c : Context) (msg : IngestedEventMessage) (w : World) (id : String)
      → (cached_incident j w msg.fingerprint c.now).1 ≡ some id
      → (id == "") ≡ false
      → ((known_incident j c w msg.fingerprint).0.db ≡ w.db)
        × ((known_incident j c w msg.fingerprint).1 ≡ some id)
  unfolding known_incident
  known_hit c msg w id h named =
      ((cached_incident-db j w msg.fingerprint c.now).0, rw (h, named) refl)

  -- Where the link is there already, linking changes nothing in the database.
  relink_known :
      (c : Context) (msg : IngestedEventMessage) (w : World) (id : String)
      → is_linked w.db id msg.event_id ≡ true
      → ((update_existing j c w msg id).0.db ≡ w.db)
        × ((update_existing j c w msg id).1
            ≡ ok (record {
              outcome = Outcome.incident_updated;
              incident_id = id;
              event_id = msg.event_id;
            }))
  unfolding update_existing
  relink_known c msg w id old =
      let e = ap (linked j c w msg id) (there w.db old) in
      (ap (λ r. r.0.db) e ∙ refresh_dedupe_window-db j w msg.fingerprint id c.now, ap (λ r. r.1) e)
    where
      there :
          (db : Db)
          → is_linked db id msg.event_id ≡ true
          → link_event db id msg.event_id c.now ≡ ok db
      there db h = unfold link_event in rw h refl

  -- The second delivery finds the incident in the cache, and the link in the table.
  repeated :
      (c : Context) (msg : IngestedEventMessage) (w : World) (id : String)
      → HasEvent msg w.db
      → (cached_incident j w msg.fingerprint c.now).1 ≡ some id
      → id ≢ ""
      → is_linked w.db id msg.event_id ≡ true
      → ((process_event j c w msg).0.db ≡ w.db)
        × ((process_event j c w msg).1
            ≡ ok (record {
              outcome = Outcome.incident_updated;
              incident_id = id;
              event_id = msg.event_id;
            }))
  unfolding process_event
  repeated c msg w id there known named old =
      let w1 : World = emit w (event_ingested msg.event_id) in
      let n = (count_in_window w1 msg.fingerprint c).1 in
      let w2 = (count_in_window w1 msg.fingerprint c).0 in
      let k = known_incident j c w2 msg.fingerprint in
      let e = ap (stored j c w msg) (kept_event w.db there) in
      let hit =
        found w2 (cached-count j c w1 msg.fingerprint ∙ cached-emit j c w w.db msg ∙ known) in
      let same : k.0.db ≡ w.db = hit.0 ∙ count_in_window-db w1 msg.fingerprint c in
      let (kept, says) = relinked n k hit.1 (ap (λ d. is_linked d id msg.event_id) same ∙ old) in
      (ap (λ r. r.0.db) e ∙ kept ∙ same, ap (λ r. r.1) e ∙ says)
    where
      kept_event : (db : Db) → HasEvent msg db → store_event msg db ≡ ok db
      kept_event db h = unfold store_event in rw h refl

      nonempty : (id == "") ≡ false
      nonempty = ground (arith, eq_iff id "", named)

      found :
          (w : World)
          → (cached_incident j w msg.fingerprint c.now).1 ≡ some id
          → ((known_incident j c w msg.fingerprint).0.db ≡ w.db)
            × ((known_incident j c w msg.fingerprint).1 ≡ some id)
      found w h = known_hit c msg w id h nonempty

      Same : World × Result ProcessResult → Db → Type 0
      Same r db =
          (r.0.db ≡ db)
          × (r.1
              ≡ ok (record {
                outcome = Outcome.incident_updated;
                incident_id = id;
                event_id = msg.event_id;
              }))

      relinked :
          (n : ℕ) (k : World × Option String)
          → k.1 ≡ some id
          → is_linked k.0.db id msg.event_id ≡ true
          → ((continue j c msg n k).0.db ≡ k.0.db)
            × ((continue j c msg n k).1
                ≡ ok (record {
                  outcome = Outcome.incident_updated;
                  incident_id = id;
                  event_id = msg.event_id;
                }))
      relinked n k h old =
          subst (λ o. Same (continue j c msg n (k.0, o)) k.0.db) (sym h)
            (relink_known c msg k.0 id old)

  -- Redelivery. Where a delivery, while Redis could be reached, ended with an incident that the event
  -- is linked to, a further delivery of the message within half an hour of it, and within whatever
  -- context, changes nothing in the database, and answers that the same incident was updated.
  pub process_event_twice :
      (c d : Context) (msg : IngestedEventMessage) (w w1 : World) (res : ProcessResult)
      → is_some w.cache ≡ true
      → process_event j c w msg ≡ (w1, ok res)
      → res.incident_id ≢ ""
      → is_linked w1.db res.incident_id msg.event_id ≡ true
      → d.now < c.now + fingerprint_window_seconds * 1000
      → ((process_event j d w1 msg).0.db ≡ w1.db)
        × ((process_event j d w1 msg).1
            ≡ ok (record {
              outcome = Outcome.incident_updated;
              incident_id = res.incident_id;
              event_id = msg.event_id;
            }))
  process_event_twice c d msg w w1 res up h named old soon =
      let (known, there) : IsNoted c msg d.now soon (w1, ok res) =
        subst (IsNoted c msg d.now soon) h (process_event-IsNoted c msg d.now soon w up) in
      repeated d msg w1 res.incident_id there known named old
