-- ===== src/Pipeline/Accepted.antt =====
-- What an accepted event leaves: its row, its message, and a service that is known.
use ops_mesh.Base.{
  ◌≡◌, refl, sym, ◌∙◌, ap, inl, inr, true, Option, none, some, List, [], ◌∷◌, ◌++◌, String,
  string_eq, any, arith, Bool-cases,
}
use ops_mesh.Redis.{RedisMemory}
use ops_mesh.Errors.{Thrown, Result, ok, err}
use ops_mesh.World.{World}
use ops_mesh.Processor.{IngestedEventMessage, has_event_id, has_service_id}
use ops_mesh.Ingest.{
  IngestEventInput, IngestResult, ServiceRef, Outside, Call, Intake, ingest_event, authorized,
  guarded, recorded, enqueued, insert_event, with_event, message_for, resolve_service, any_exists,
  set_all, idempotency_keys, is_foreign,
}
use ops_mesh.Ingest.Remembered.{resolve_service-db}

module _ (o : Outside) (c : Call) (s : Intake) (input : IngestEventInput) where
  -- Where the answer says that the event was published: the row, the message and the service.
  abbrev pub Accepted : Intake × Result IngestResult → Type 0
  Accepted (t, err e) = Unit
  Accepted (t, ok res) =
      res.published ≡ true
      → (svc : ServiceRef) × (t.queue ≡ s.queue ++ message_for o c input svc ∷ [])
        × (t.world.db ≡ with_event (message_for o c input svc) s.world.db)
        × (any (has_service_id svc.id) s.world.db.services ≡ true)

  inserted-Accepted :
      (t : Intake) (svc : ServiceRef)
      → t.world.db ≡ s.world.db
      → t.queue ≡ s.queue
      → Accepted (
          recorded c t
            (message_for o c input svc)
            (insert_event c (message_for o c input svc) t.world.db))
  inserted-Accepted t svc same queue = go c.db_error c.bus_error
    where
      msg : IngestedEventMessage
      msg = message_for o c input svc

      sent :
          any (has_service_id svc.id) t.world.db.services ≡ true
          → (b : Option Thrown)
          → Accepted (
              enqueued c
                (record t { world = record t.world { db = with_event msg t.world.db } })
                msg
                b)
      sent known (some e) = tt
      sent known none = λ _. (
        svc,
        ap (λ q. q ++ msg ∷ []) queue,
        ap (with_event msg) same,
        ap (λ d. any (has_service_id svc.id) d.services) (sym same) ∙ known,
      )

      go :
          (d b : Option Thrown)
          → Accepted (
              recorded
                (record c { db_error = d; bus_error = b })
                t
                msg
                (insert_event (record c { db_error = d; bus_error = b }) msg t.world.db))
      go (some e) b = tt
      go none b = elim (Bool-cases (any (has_event_id c.event_id) t.world.db.events)) [
        | inl taken ↦ rw taken tt
        | inr new ↦ elim (Bool-cases (any (has_service_id svc.id) t.world.db.services)) [
          | inl known ↦ rw (new, known) (sent known b)
          | inr unknown ↦ rw (new, unknown) tt
        ]
      ]

  guarded-Accepted :
      (t : Intake) (svc : ServiceRef)
      → t.world.db ≡ s.world.db
      → t.queue ≡ s.queue
      → Accepted (guarded o c t input svc)
  guarded-Accepted t svc same queue = go t.world.cache
    where
      go :
          (r : Option RedisMemory)
          → Accepted (guarded o c (record t { world = record t.world { cache = r } }) input svc)
      go none = tt
      go (some r) =
          let keys : List String = idempotency_keys o input in
          let left : RedisMemory = (any_exists r keys c.now).0 in
          elim (Bool-cases (any_exists r keys c.now).1) [
            | inl e ↦ rw e (λ p. absurd (ground (arith, p)))
            | inr e ↦ rw e (
                inserted-Accepted
                  (record t { world = record t.world { cache = some (set_all left keys c.now) } })
                  svc same queue)
          ]

  authorized-Accepted :
      (auth : Option String) (p : World × Option ServiceRef)
      → p.0.db ≡ s.world.db
      → Accepted (authorized o c s input auth p)
  authorized-Accepted auth (w, none) same = tt
  authorized-Accepted auth (w, some svc) same = elim (Bool-cases (is_foreign auth svc)) [
    | inl e ↦ rw e tt
    | inr e ↦ rw e (guarded-Accepted (record s { world = w }) svc same refl)
  ]

  pub ingest_event-Accepted : (auth : Option String) → Accepted (ingest_event o c s input auth)
  unfolding ingest_event
  ingest_event-Accepted auth =
      authorized-Accepted auth (resolve_service o s.world input.service c.now)
        (resolve_service-db o s.world input.service c.now)
