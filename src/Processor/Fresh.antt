-- ===== src/Processor/Fresh.antt =====
-- How an event without an open incident goes on to open one.
use ops_mesh.Base.{
  ℕ, ◌≡◌, refl, ◌∙◌, ap, not, Option, none, some, String, ◌==◌, ◌&&◌, string_eq, find, arith,
}
use ops_mesh.Types.{resolved}
use ops_mesh.Shared.StateMachine.{status_eq}
use ops_mesh.Redis.{get, live, sliding_window_add}
use ops_mesh.Db.{Db}
use ops_mesh.Errors.{ok}
use ops_mesh.World.{World, Json, cached_incident, emit, event_ingested}
use ops_mesh.World.Cache.{cached_incident-db}
use ops_mesh.Processor.{
  IngestedEventMessage, store_event, find_open_incident_by_fingerprint, has_key,
}
use ops_mesh.Processor.Process.{
  Context, count_in_window, open_incident, known_incident, continue, process_event, stored, present,
}
use ops_mesh.Processor.Keeps.{store_event-tables, count_in_window-db}

module _ (j : Json) (c : Context) where
  -- The window's counter is under another key than the cached incident.
  pub cached-count :
      (w : World) (fingerprint : String)
      → (cached_incident j (count_in_window w fingerprint c).0 fingerprint c.now).1
        ≡ (cached_incident j w fingerprint c.now).1
  unfolding cached_incident count_in_window sliding_window_add get live
  cached-count w fingerprint = ground arith

  pub cached-emit :
      (w : World) (db : Db) (msg : IngestedEventMessage)
      → (cached_incident j
          (emit (record w { db = db }) (event_ingested msg.event_id))
          msg.fingerprint
          c.now).1
        ≡ (cached_incident j w msg.fingerprint c.now).1
  unfolding cached_incident
  cached-emit w db msg = ground arith

  count-emit :
      (w : World) (db : Db) (msg : IngestedEventMessage)
      → (count_in_window
          (emit (record w { db = db }) (event_ingested msg.event_id))
          msg.fingerprint
          c).1
        ≡ (count_in_window w msg.fingerprint c).1
  unfolding count_in_window
  count-emit w db msg = ground arith

  known_incident-read :
      (w : World) (fingerprint : String)
      → (cached_incident j w fingerprint c.now).1 ≡ none
      → ((known_incident j c w fingerprint).0.db ≡ w.db)
        × ((known_incident j c w fingerprint).1
            ≡ present (
                find_open_incident_by_fingerprint
                  (known_incident j c w fingerprint).0.db
                  fingerprint))
  unfolding known_incident
  known_incident-read w fingerprint miss =
      ((cached_incident-db j w fingerprint c.now).0, rw miss refl)

  nothing_open :
      (d : Db) (fingerprint : String) (db : Db)
      → d.incidents ≡ db.incidents
      → find (λ r. has_key fingerprint r && not (r.status == resolved)) db.incidents ≡ none
      → present (find_open_incident_by_fingerprint d fingerprint) ≡ none
  unfolding find_open_incident_by_fingerprint
  nothing_open d fingerprint db e closed = ground (arith, e, closed)

  continue-none :
      (msg : IngestedEventMessage) (n : ℕ) (k : World × Option String)
      → k.1 ≡ none
      → continue j c msg n k ≡ open_incident j c k.0 msg n
  continue-none msg n (w, none) h = refl
  continue-none msg n (w, some id) h = absurd (ground arith)

  -- An event that finds no open incident goes on to open one.
  pub process_event-opens :
      (msg : IngestedEventMessage) (w : World) (db : Db)
      → store_event msg w.db ≡ ok db
      → (cached_incident j w msg.fingerprint c.now).1 ≡ none
      → find (λ r. has_key msg.fingerprint r && not (r.status == resolved)) w.db.incidents ≡ none
      → (w' : World) × (n : ℕ) × (w'.db ≡ db)
        × (n ≡ (count_in_window w msg.fingerprint c).1)
        × (process_event j c w msg ≡ open_incident j c w' msg n)
  unfolding process_event
  process_event-opens msg w db h miss closed =
      let w1 : World = emit (record w { db = db }) (event_ingested msg.event_id) in
      let (w2, n) = count_in_window w1 msg.fingerprint c in
      let k = known_incident j c w2 msg.fingerprint in
      let same =
        known_incident-read w2 msg.fingerprint
          (cached-count w1 msg.fingerprint ∙ cached-emit w db msg ∙ miss) in
      let tables = store_event-tables msg w.db db h in
      let none_open =
        same.1
        ∙ nothing_open k.0.db msg.fingerprint w.db
            (ap (λ d. d.incidents) (same.0 ∙ count_in_window-db w1 msg.fingerprint c) ∙ tables.0)
            closed in
      (
        k.0,
        n,
        same.0 ∙ count_in_window-db w1 msg.fingerprint c,
        count-emit w db msg,
        ap (stored j c w msg) h ∙ continue-none msg n k none_open,
      )
