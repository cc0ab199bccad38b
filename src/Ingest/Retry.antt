-- ===== src/Ingest/Retry.antt =====
-- What the idempotency keys of ingestEvent do to a request that is sent again.
use ops_mesh.Base.{
  ℕ, ◌+◌, ◌*◌, ◌<◌, ◌≡◌, refl, sym, ◌∙◌, ap, subst, false, Option, none, some, String, string_eq,
  arith,
}
use ops_mesh.Redis.{RedisMemory}
use ops_mesh.Db.{Db}
use ops_mesh.Errors.{Thrown, Result, ok, err}
use ops_mesh.World.{World}
use ops_mesh.Ingest.{
  IngestEventInput, ServiceRef, Outside, Call, Intake, dedupe_window_seconds, resolve_service,
  is_foreign, fingerprint_key, idempotency_keys, request_keys, any_exists, set_all,
  duplicate_result, guarded, authorized, recorded, enqueued, insert_event, message_for,
  ingest_event,
}
use ops_mesh.Ingest.Remembered.{
  HasKey, set_all-HasKey, any_exists-found, any-last, Holds, resolve_service-Holds,
  resolve_service-db,
}

module _ (o : Outside) where
  refused_again :
      (c : Call) (s : Intake) (input : IngestEventInput) (auth : Option String) (svc : ServiceRef)
      → Holds s.world (fingerprint_key o input) c.now
      → (resolve_service o s.world input.service c.now).1 ≡ some svc
      → is_foreign auth svc ≡ false
      → ((ingest_event o c s input auth).1 ≡ ok (duplicate_result o input))
        × ((ingest_event o c s input auth).0.world.db ≡ s.world.db)
        × ((ingest_event o c s input auth).0.queue ≡ s.queue)
  unfolding ingest_event
  refused_again c s input auth svc h known own =
      go (resolve_service o s.world input.service c.now)
        (resolve_service-Holds o s.world input.service (fingerprint_key o input) c.now h) known
        (resolve_service-db o s.world input.service c.now)
    where
      go :
          (p : World × Option ServiceRef)
          → Holds p.0 (fingerprint_key o input) c.now
          → p.1 ≡ some svc
          → p.0.db ≡ s.world.db
          → ((authorized o c s input auth p).1 ≡ ok (duplicate_result o input))
            × ((authorized o c s input auth p).0.world.db ≡ s.world.db)
            × ((authorized o c s input auth p).0.queue ≡ s.queue)
      go (w, none) h e same = absurd (ground arith)
      go (w, some svc') (r, e, there) e' same =
          let mine : is_foreign auth svc' ≡ false = ground (arith, e', own) in
          let hit =
            any_exists-found (idempotency_keys o input) r c.now (fingerprint_key o input)
              (any-last (request_keys input.request_id) (fingerprint_key o input)) there in
          rw (mine, e, hit) (refl, same, refl)

  -- The guard let the request through, so its keys are set, whatever came after.
  noted-Holds :
      (c : Call) (s : Intake) (r r' : RedisMemory) (input : IngestEventInput) (svc : ServiceRef)
      (t : ℕ)
      → s.world.cache ≡ some r
      → any_exists r (idempotency_keys o input) c.now ≡ (r', false)
      → t < c.now + dedupe_window_seconds * 1000
      → Holds (guarded o c s input svc).0.world (fingerprint_key o input) t
  noted-Holds c s r r' input svc t e miss lt =
      let k = fingerprint_key o input in
      let keys = idempotency_keys o input in
      let set_now : HasKey (set_all r' keys c.now) k t =
        set_all-HasKey keys r' c.now t k lt
          (ground (arith, any-last (request_keys input.request_id) k)) in
      rw (e, miss)
        (
          set_all r' keys c.now,
          kept (insert_event c (message_for o c input svc) s.world.db),
          set_now,
        )
    where
      noted : Intake
      noted = record s {
        world = record s.world { cache = some (set_all r' (idempotency_keys o input) c.now) };
      }

      kept :
          (d : Result Db)
          → (recorded c noted (message_for o c input svc) d).0.world.cache
            ≡ some (set_all r' (idempotency_keys o input) c.now)
      kept (err e) = refl
      kept (ok db) = go c.bus_error
        where
          go :
              (b : Option Thrown)
              → (enqueued c
                  (record noted { world = record noted.world { db = db } })
                  (message_for o c input svc)
                  b).0.world.cache
                ≡ some (set_all r' (idempotency_keys o input) c.now)
          go none = refl
          go (some e) = refl

  -- A request that the guard lets through, and whose insertion the database then refuses, is lost: the
  -- caller gets the error of the database, and nothing is stored or published; and when the caller sends
  -- it again, within two minutes and with a working database, it is answered as a duplicate, and again
  -- nothing is stored or published.
  pub ingest_event_lost :
      (c d : Call) (s : Intake) (w : World) (r r' : RedisMemory) (input : IngestEventInput)
      (auth : Option String) (svc again : ServiceRef) (e : Thrown)
      → resolve_service o s.world input.service c.now ≡ (w, some svc)
      → is_foreign auth svc ≡ false
      → w.cache ≡ some r
      → any_exists r (idempotency_keys o input) c.now ≡ (r', false)
      → c.db_error ≡ some e
      → d.now < c.now + dedupe_window_seconds * 1000
      → (resolve_service o (ingest_event o c s input auth).0.world input.service d.now).1
        ≡ some again
      → is_foreign auth again ≡ false
      → (let first = ingest_event o c s input auth in
          let second = ingest_event o d first.0 input auth in
          (first.1 ≡ err e)
          × (first.0.world.db ≡ s.world.db)
          × (second.1 ≡ ok (duplicate_result o input))
          × (second.0.world.db ≡ s.world.db)
          × (second.0.queue ≡ s.queue))
  ingest_event_lost c d s w r r' input auth svc again e known own up miss broken lt known' own' =
      let (says, same, queue) = first_run in
      let (dup, same', queue') =
        refused_again d (ingest_event o c s input auth).0 input auth again
          (subst (λ x. Holds x.0.world (fingerprint_key o input) d.now) (sym run)
            (noted-Holds c (record s { world = w }) r r' input svc d.now up miss lt))
          known' own' in
      (says, same, dup, same' ∙ same, queue' ∙ queue)
    where
      run : ingest_event o c s input auth ≡ guarded o c (record s { world = w }) input svc
      run = unfold ingest_event in ap (authorized o c s input auth) known ∙ rw own refl

      w-db : w.db ≡ s.world.db
      w-db = sym (ap (λ p. p.0.db) known) ∙ resolve_service-db o s.world input.service c.now

      failed :
          ((guarded o c (record s { world = w }) input svc).1 ≡ err e)
          × ((guarded o c (record s { world = w }) input svc).0.world.db ≡ w.db)
          × ((guarded o c (record s { world = w }) input svc).0.queue ≡ s.queue)
      failed = rw (up, miss, broken) (refl, refl, refl)

      first_run :
          ((ingest_event o c s input auth).1 ≡ err e)
          × ((ingest_event o c s input auth).0.world.db ≡ s.world.db)
          × ((ingest_event o c s input auth).0.queue ≡ s.queue)
      first_run =
          let (a, b, q) = failed in
          (
            ap (λ x. x.1) run ∙ a,
            ap (λ x. x.0.world.db) run ∙ b ∙ w-db,
            ap (λ x. x.0.queue) run ∙ q,
          )

  -- A request that the guard let through is taken at most once: sent again within two minutes, it is
  -- answered as a duplicate, and neither the database nor the queue changes.
  pub ingest_event_once :
      (c d : Call) (s : Intake) (w : World) (r r' : RedisMemory) (input : IngestEventInput)
      (auth : Option String) (svc again : ServiceRef)
      → resolve_service o s.world input.service c.now ≡ (w, some svc)
      → is_foreign auth svc ≡ false
      → w.cache ≡ some r
      → any_exists r (idempotency_keys o input) c.now ≡ (r', false)
      → d.now < c.now + dedupe_window_seconds * 1000
      → (resolve_service o (ingest_event o c s input auth).0.world input.service d.now).1
        ≡ some again
      → is_foreign auth again ≡ false
      → (let first = ingest_event o c s input auth in
          let second = ingest_event o d first.0 input auth in
          (second.1 ≡ ok (duplicate_result o input))
          × (second.0.world.db ≡ first.0.world.db)
          × (second.0.queue ≡ first.0.queue))
  ingest_event_once c d s w r r' input auth svc again known own up miss lt known' own' =
      refused_again d (ingest_event o c s input auth).0 input auth again
        (subst (λ x. Holds x.0.world (fingerprint_key o input) d.now) (sym run)
          (noted-Holds c (record s { world = w }) r r' input svc d.now up miss lt))
        known' own'
    where
      run : ingest_event o c s input auth ≡ guarded o c (record s { world = w }) input svc
      run = unfold ingest_event in ap (authorized o c s input auth) known ∙ rw own refl
