-- ===== src/Processor/Keeps.antt =====
-- Every event, whatever its outcome, keeps the tables of the processor linked.
use ops_mesh.Base.{
  ℕ, ◌+◌, ◌≡◌, refl, sym, ◌∙◌, subst, true, false, Option, none, some, List, [], ◌∷◌, ◌++◌, String,
  string_eq, find, any, arith, inl, inr, ◌⊎◌, update_where,
}
use ops_mesh.Types.{IncidentSeverity, NotificationChannel}
use ops_mesh.Db.{Db, IncidentRow, LinkRow, UserRow, has_id}
use ops_mesh.Errors.{Result, ok, err}
use ops_mesh.World.{World, Json, transaction, refresh_dedupe_window, emit, event_ingested}
use ops_mesh.World.Cache.{cached_incident-db}
use ops_mesh.Incidents.Consistent.{transaction_keeps}
use ops_mesh.Notify.{RenderNotificationOptions, enqueue_incident_notification}
use ops_mesh.Processor.{
  IngestedEventMessage, store_event, link_event, is_linked, has_key, has_incident, counted,
}
use ops_mesh.Processor.Create.{
  CreateParams, create_incident_record, new_incident, with_incident, on_call_engineer,
}
use ops_mesh.Processor.Process.{
  Context, count_in_window, severity_of_event, create_params, notify_assignee, assignee,
  update_existing, linked, stored, announce, open_incident, known_incident, continue, process_event,
}
use ops_mesh.Processor.Invariant.{IsLinked, IsLinked-link, IsLinked-create}

abbrev pub IsLinkedDb : Db → Type 0
IsLinkedDb db = IsLinked db.incidents db.links

same_tables :
    (db db' : Db)
    → db'.incidents ≡ db.incidents
    → db'.links ≡ db.links
    → IsLinkedDb db
    → IsLinkedDb db'
same_tables db db' e f s =
    subst (λ rs. IsLinked rs db'.links) (sym e) (subst (IsLinked db.incidents) (sym f) s)

pub store_event-tables :
    (msg : IngestedEventMessage) (db db' : Db)
    → store_event msg db ≡ ok db'
    → (db'.incidents ≡ db.incidents) × (db'.links ≡ db.links)
unfolding store_event
store_event-tables msg db db' h = ground arith

-- What a successful `linkEvent` wrote.
pub link_event-ok :
    (db db' : Db) (id event : String) (now : ℕ)
    → link_event db id event now ≡ ok db'
    → ((is_linked db id event ≡ true) × (db' ≡ db))
      ⊎ ((is_linked db id event ≡ false)
          × (has_incident db id ≡ true)
          × (db'.incidents ≡ update_where (has_id id) (counted now) db.incidents)
          × (db'.links ≡ db.links ++ record { incident_id = id; event_id = event } ∷ []))
unfolding link_event
link_event-ok db db' id event now h = ground arith

link_event-IsLinked :
    (db db' : Db) (id event : String) (now : ℕ)
    → IsLinkedDb db
    → link_event db id event now ≡ ok db'
    → IsLinkedDb db'
link_event-IsLinked db db' id event now s h = elim (link_event-ok db db' id event now h) [
  | inl (_, e) ↦ subst IsLinkedDb (sym e) s
  | inr (new, here, e, f) ↦
      let l : LinkRow = record { incident_id = id; event_id = event } in
      subst (λ rs. IsLinked rs db'.links) (sym e)
        (subst (IsLinked (update_where (has_id id) (counted now) db.incidents)) (sym f)
          (IsLinked-link now l db.incidents db.links s here (unfold is_linked in new)))
]

pub with_incident-tables :
    (db : Db) (p : CreateParams) (id : String) (on_call : Option UserRow) (now : ℕ)
    → ((with_incident db p id on_call now).incidents
        ≡ db.incidents ++ new_incident p id on_call now ∷ [])
      × ((with_incident db p id on_call now).links
          ≡ db.links ++ record { incident_id = id; event_id = p.event_id } ∷ [])
with_incident-tables db p id none now = (refl, refl)
with_incident-tables db p id (some u) now = (refl, refl)

-- A successful transaction found the incident of the key, or wrote a new one.
pub create_incident_record-ok :
    (p : CreateParams) (id : String) (now : ℕ) (db db' : Db) (i : String)
    → create_incident_record p id now db ≡ ok (db', i)
    → ((db' ≡ db)
        × ((r : IncidentRow) × (find (has_key p.fingerprint) db.incidents ≡ some r) × (i ≡ r.id)))
      ⊎ ((find (has_key p.fingerprint) db.incidents ≡ none)
          × (any (has_id id) db.incidents ≡ false)
          × (i ≡ id)
          × (db' ≡ with_incident db p id (on_call_engineer db p.service_id now) now))
unfolding create_incident_record
create_incident_record-ok p id now db db' i h = ground arith

create_incident_record-IsLinked :
    (p : CreateParams) (id : String) (now : ℕ) (db db' : Db) (i : String)
    → IsLinkedDb db
    → create_incident_record p id now db ≡ ok (db', i)
    → IsLinkedDb db'
create_incident_record-IsLinked p id now db db' i s h =
    elim (create_incident_record-ok p id now db db' i h) [
      | inl (e, _) ↦ subst IsLinkedDb (sym e) s
      | inr (free, new, _, e) ↦
          let u = on_call_engineer db p.service_id now in
          let (f, g) = with_incident-tables db p id u now in
          subst IsLinkedDb (sym e) (
            subst (λ rs. IsLinked rs (with_incident db p id u now).links) (sym f)
              (subst (IsLinked (db.incidents ++ new_incident p id u now ∷ [])) (sym g) (
                unfold new_incident in
                IsLinked-create p.fingerprint (new_incident p id u now) p.event_id db.incidents
                  db.links s refl refl free new)))
    ]

pub enqueue-tables :
    (api_url : String) (ids : ℕ → String) (now : ℕ) (db : Db) (o : RenderNotificationOptions)
    (to : String) (channels : List NotificationChannel)
    → ((enqueue_incident_notification api_url ids now db o to channels).incidents ≡ db.incidents)
      × ((enqueue_incident_notification api_url ids now db o to channels).links ≡ db.links)
      × ((enqueue_incident_notification api_url ids now db o to channels).events ≡ db.events)
unfolding enqueue_incident_notification
enqueue-tables api_url ids now db o to [] = (refl, refl, refl)
enqueue-tables api_url ids now db o to (c ∷ channels) =
    enqueue-tables api_url (λ n. ids (1 + n)) now _ o to channels

notify-IsLinked :
    (c : Context) (msg : IngestedEventMessage) (sev : IncidentSeverity) (id : String)
    (o : Option UserRow) (db : Db)
    → IsLinkedDb db
    → IsLinkedDb (notify_assignee c msg sev id o db)
notify-IsLinked c msg sev id none db s = s
notify-IsLinked c msg sev id (some u) db s =
    let (e, f, _) = enqueue-tables c.api_url c.notification_ids c.now db _ u.email _ in
    same_tables db (notify_assignee c msg sev id (some u) db) e f s

pub refresh_dedupe_window-db :
    (j : Json) (w : World) (fingerprint id : String) (now : ℕ)
    → (refresh_dedupe_window j w fingerprint id now).db ≡ w.db
unfolding refresh_dedupe_window
refresh_dedupe_window-db j w fingerprint id now = ground arith

pub count_in_window-db :
    (w : World) (fingerprint : String) (c : Context) → (count_in_window w fingerprint c).0.db ≡ w.db
unfolding count_in_window
count_in_window-db w fingerprint c = ground arith

module _ (j : Json) (c : Context) (msg : IngestedEventMessage) where
  update_existing-IsLinked :
      (w : World) (id : String) → IsLinkedDb w.db → IsLinkedDb (update_existing j c w msg id).0.db
  unfolding update_existing
  update_existing-IsLinked w id s = go (link_event w.db id msg.event_id c.now) refl
    where
      go :
          (r : Result Db)
          → link_event w.db id msg.event_id c.now ≡ r
          → IsLinkedDb (linked j c w msg id r).0.db
      go (err e) h = s
      go (ok db) h =
          subst IsLinkedDb
            (sym (refresh_dedupe_window-db j (record w { db = db }) msg.fingerprint id c.now))
            (link_event-IsLinked w.db db id msg.event_id c.now s h)

  announce-IsLinked :
      (w : World) (sev : IncidentSeverity) (d : Db × Result String)
      → IsLinkedDb d.0
      → IsLinkedDb (announce j c w msg sev d).0.db
  announce-IsLinked w sev (db, err e) s = s
  announce-IsLinked w sev (db, ok id) s =
      let w1 = refresh_dedupe_window j (record w { db = db }) msg.fingerprint id c.now in
      notify-IsLinked c msg sev id (assignee w1.db id) w1.db (
        subst IsLinkedDb
          (sym (refresh_dedupe_window-db j (record w { db = db }) msg.fingerprint id c.now)) s)

  open_incident-IsLinked :
      (w : World) (n : ℕ) → IsLinkedDb w.db → IsLinkedDb (open_incident j c w msg n).0.db
  unfolding open_incident
  open_incident-IsLinked w n s =
      let sev = severity_of_event w.db msg n in
      let p = create_params msg sev in
      announce-IsLinked w sev (transaction (create_incident_record p c.incident_id c.now) w.db) (
        transaction_keeps IsLinkedDb (create_incident_record p c.incident_id c.now) w.db s
          (λ db' i h. create_incident_record-IsLinked p c.incident_id c.now w.db db' i s h))

  continue-IsLinked :
      (n : ℕ) (k : World × Option String)
      → IsLinkedDb k.0.db
      → IsLinkedDb (continue j c msg n k).0.db
  continue-IsLinked n (w, some id) s = update_existing-IsLinked w id s
  continue-IsLinked n (w, none) s = open_incident-IsLinked w n s

  known_incident-db : (w : World) → (known_incident j c w msg.fingerprint).0.db ≡ w.db
  unfolding known_incident
  known_incident-db w = (cached_incident-db j w msg.fingerprint c.now).0

  -- Processing an event, wherever it ends and whether or not Redis can be reached, keeps the tables
  -- linked: ids and dedupe keys stay unique, so that one fingerprint has one incident; no event is
  -- linked to an incident twice; every link refers to an incident; and the event count of each
  -- incident is the number of its links.
  pub process_event-IsLinked :
      (w : World)
      → IsLinked w.db.incidents w.db.links
      → IsLinked (process_event j c w msg).0.db.incidents (process_event j c w msg).0.db.links
  unfolding process_event
  process_event-IsLinked w s = go (store_event msg w.db) refl
    where
      go : (r : Result Db) → store_event msg w.db ≡ r → IsLinkedDb (stored j c w msg r).0.db
      go (err e) h = s
      go (ok db) h =
          let (e, f) = store_event-tables msg w.db db h in
          let w1 : World = emit (record w { db = db }) (event_ingested msg.event_id) in
          let (w2, n) = count_in_window w1 msg.fingerprint c in
          continue-IsLinked n (known_incident j c w2 msg.fingerprint) (
            subst IsLinkedDb (sym (known_incident-db w2 ∙ count_in_window-db w1 msg.fingerprint c))
              (same_tables w.db db e f s))
