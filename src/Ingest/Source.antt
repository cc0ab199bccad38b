-- ===== src/Ingest/Source.antt =====
-- What a key may write through the ingestion endpoint.
use ops_mesh.Base.{
  ℕ, ◌≡◌, refl, sym, ◌∙◌, ap, subst, ◌⊎◌, inl, inr, Bool, true, false, not, Option, none, some,
  List, [], ◌∷◌, ◌++◌, String, ◌==◌, string_eq, ◌&&◌, ◌||◌, if◌then◌else◌, any, find, slice_to,
  strip_prefix, arith, eq_iff, eq_refl, Bool-cases,
}
use ops_mesh.Types.{event_ingest}
use ops_mesh.Redis.{RedisMemory}
use ops_mesh.Db.{Db, ApiKeyRow}
use ops_mesh.Errors.{Thrown, other, Result, ok, err}
use ops_mesh.World.{World}
use ops_mesh.RateLimit.{RateLimitOptions, Passage, admitted, refused, rate_limiter}
use ops_mesh.Processor.{IngestedEventMessage, has_event_id, has_service_id}
use ops_mesh.Auth.{Headers, ApiKeyAuth, require_api_key, non_empty, key_secret, keyed, checked_key}
use ops_mesh.Auth.Keys.{KeyData, get_api_key_data, looked_up, matching, is_active_key}
use ops_mesh.Ingest.{
  IngestEventInput, IngestResult, ServiceRef, Outside, Call, Intake, ingest_event, authorized,
  guarded, recorded, enqueued, insert_event, with_event, message_for, resolve_service, any_exists,
  set_all, idempotency_keys,
}
use ops_mesh.Ingest.Remembered.{resolve_service-db}
use ops_mesh.Ingest.Route.{replied, event_limit_id, validated, limited, accepted, post_event}

-- A key of the table that is active, has the prefix and the hash of a secret, and stands for a service.
abbrev pub is_key_of : (sha256 : String → String) → (secret service_id : String) → ApiKeyRow → Bool
is_key_of sha256 secret service_id k =
    is_active_key (slice_to 12 secret) k && k.key_hash == sha256 secret && k.subject == service_id

-- Between two states nothing was stored or published, or one event, of that service, was stored and at
-- most its message was published.
pub data Written (service_id : String) (s t : Intake) : Type 0 where
  untouched : t.world.db ≡ s.world.db → t.queue ≡ s.queue → Written service_id s t
  stored :
      (m : IngestedEventMessage)
      → m.service_id ≡ service_id
      → t.world.db ≡ with_event m s.world.db
      → (t.queue ≡ s.queue) ⊎ (t.queue ≡ s.queue ++ m ∷ [])
      → Written service_id s t

insert_event-cases :
    (c : Call) (msg : IngestedEventMessage) (db : Db)
    → ((e : Thrown) × (insert_event c msg db ≡ err e))
      ⊎ (insert_event c msg db ≡ ok (with_event msg db))
insert_event-cases c msg db = go c.db_error (Bool-cases clash)
  where
    clash : Bool
    clash =
        any (has_event_id msg.event_id) db.events
        || not (any (has_service_id msg.service_id) db.services)

    insertion : Option Thrown → Result Db
    insertion none = if clash then err (other "constraint violation") else ok (with_event msg db)
    insertion (some e) = err e

    go :
        (o : Option Thrown)
        → (clash ≡ true) ⊎ (clash ≡ false)
        → ((e : Thrown) × (insert_event (record c { db_error = o }) msg db ≡ err e))
          ⊎ (insert_event (record c { db_error = o }) msg db ≡ ok (with_event msg db))
    go (some e) b = inl (e, refl)
    go none (inl b) = inl (other "constraint violation", rw b refl)
    go none (inr b) = inr (rw b refl)

module _ (o : Outside) where
  enqueued-Written :
      (c : Call) (s t : Intake) (msg : IngestedEventMessage) (b : Option Thrown)
      → t.world.db ≡ with_event msg s.world.db
      → t.queue ≡ s.queue
      → Written msg.service_id s (enqueued c t msg b).0
  enqueued-Written c s t msg none same queue =
      stored msg refl same (inr (ap (λ q. q ++ msg ∷ []) queue))
  enqueued-Written c s t msg (some e) same queue = stored msg refl same (inl queue)

  recorded-Written :
      (c : Call) (s t : Intake) (msg : IngestedEventMessage)
      → t.world.db ≡ s.world.db
      → t.queue ≡ s.queue
      → Written msg.service_id s (recorded c t msg (insert_event c msg t.world.db)).0
  recorded-Written c s t msg same queue = elim (insert_event-cases c msg t.world.db) [
    | inl (e, failed) ↦
        subst (λ r. Written msg.service_id s (recorded c t msg r).0) (sym failed)
          (untouched same queue)
    | inr done ↦
        subst (λ r. Written msg.service_id s (recorded c t msg r).0) (sym done)
          (enqueued-Written c s
            (record t { world = record t.world { db = with_event msg t.world.db } }) msg c.bus_error
            (ap (with_event msg) same) queue)
  ]

  guarded-Written :
      (c : Call) (s t : Intake) (input : IngestEventInput) (svc : ServiceRef)
      → t.world.db ≡ s.world.db
      → t.queue ≡ s.queue
      → Written svc.id s (guarded o c t input svc).0
  guarded-Written c s t input svc same queue = go t.world.cache
    where
      go :
          (r : Option RedisMemory)
          → Written svc.id s
              (guarded o c (record t { world = record t.world { cache = r } }) input svc).0
      go none = untouched same queue
      go (some r) =
          let keys : List String = idempotency_keys o input in
          let left : RedisMemory = (any_exists r keys c.now).0 in
          elim (Bool-cases (any_exists r keys c.now).1) [
            | inl e ↦ rw e (untouched same queue)
            | inr e ↦ rw e (
                recorded-Written c s
                  (record t { world = record t.world { cache = some (set_all left keys c.now) } })
                  (message_for o c input svc) same queue)
          ]

  authorized-Written :
      (c : Call) (s : Intake) (input : IngestEventInput) (id : String)
      (p : World × Option ServiceRef)
      → (id == "") ≡ false
      → p.0.db ≡ s.world.db
      → Written id s (authorized o c s input (some id) p).0
  authorized-Written c s input id (w, none) named same = untouched same refl
  authorized-Written c s input id (w, some svc) named same = elim (Bool-cases (svc.id == id)) [
    | inl mine ↦
        rw (named, mine)
          (subst (λ i. Written i s (guarded o c (record s { world = w }) input svc).0)
            ((eq_iff svc.id id).0 mine)
            (guarded-Written c s (record s { world = w }) input svc same refl))
    | inr foreign ↦ rw (named, foreign) (untouched same refl)
  ]

  ingest_event-Written :
      (c : Call) (s : Intake) (input : IngestEventInput) (id : String)
      → (id == "") ≡ false
      → Written id s (ingest_event o c s input (some id)).0
  unfolding ingest_event
  ingest_event-Written c s input id named =
      authorized-Written c s input id (resolve_service o s.world input.service c.now) named
        (resolve_service-db o s.world input.service c.now)

  replied-state : (p : Intake × Result IngestResult) → (replied p).0 ≡ p.0
  replied-state (s, ok r) = refl
  replied-state (s, err e) = refl

  Written-from :
      (id : String) (s t u : Intake)
      → t.world.db ≡ s.world.db
      → t.queue ≡ s.queue
      → Written id t u
      → Written id s u
  Written-from id s t u same queue (untouched d q) = untouched (d ∙ same) (q ∙ queue)
  Written-from id s t u same queue (stored m mine d (inl q)) =
      stored m mine (d ∙ ap (with_event m) same) (inl (q ∙ queue))
  Written-from id s t u same queue (stored m mine d (inr q)) =
      stored m mine (d ∙ ap (with_event m) same) (inr (q ∙ ap (λ l. l ++ m ∷ []) queue))

  rate_limiter-db :
      (opts : RateLimitOptions) (w : World) (id : String) (now : ℕ) (member : String)
      → (rate_limiter opts w id now member).0.db ≡ w.db
  unfolding rate_limiter
  rate_limiter-db opts w id now member = ground arith

  module _ (sha256 : String → String) (valid : IngestEventInput → Bool) where
    validated-Written :
        (c : Call) (s t : Intake) (input : IngestEventInput) (key : ApiKeyAuth)
        → (key.subject == "") ≡ false
        → t.world.db ≡ s.world.db
        → t.queue ≡ s.queue
        → Written key.subject s (validated o sha256 valid c t input key).0
    validated-Written c s t input key named same queue = elim (Bool-cases (valid input)) [
      | inl e ↦ rw e (
          subst (Written key.subject s)
            (sym (replied-state (ingest_event o c t input (some key.subject))))
            (Written-from key.subject s t (ingest_event o c t input (some key.subject)).0 same queue
              (ingest_event-Written c t input key.subject named)))
      | inr e ↦ rw e (untouched same queue)
    ]

    limited-Written :
        (c : Call) (s : Intake) (input : IngestEventInput) (key : ApiKeyAuth) (p : World × Passage)
        → (key.subject == "") ≡ false
        → p.0.db ≡ s.world.db
        → Written key.subject s (limited o sha256 valid c s input key p).0
    limited-Written c s input key (w, refused e after headers) named same = untouched same refl
    limited-Written c s input key (w, admitted headers) named same =
        validated-Written c s (record s { world = w }) input key named same refl

    -- The service of a key that lets a request in: an active key of that prefix and hash stands for it.
    vouched :
        (secret : String) (rows : List ApiKeyRow) (d : KeyData)
        → matching sha256 secret (find (is_active_key (slice_to 12 secret)) rows) ≡ some d
        → any (is_key_of sha256 secret d.subject) rows ≡ true
    vouched secret [] d h = absurd (ground (arith, h))
    vouched secret (k ∷ rows) d h = elim (Bool-cases (is_active_key (slice_to 12 secret) k)) [
      | inl e ↦ elim (Bool-cases (k.key_hash == sha256 secret)) [
        | inl same ↦ ground (arith, e, same, eq_refl k.subject, rw (e, same) at h)
        | inr differs ↦ absurd (ground (arith, rw (e, differs) at h))
      ]
      | inr e ↦ ground (arith, vouched secret rows d (rw e at h))
    ]

    key_sound :
        (secret : String) (db : Db) (d : KeyData)
        → get_api_key_data sha256 db secret ≡ some d
        → any (is_key_of sha256 secret d.subject) db.api_keys ≡ true
    unfolding get_api_key_data
    key_sound secret db d h = go (strip_prefix "om_" secret) h
      where
        go :
            (o : Option String)
            → looked_up sha256 db secret o ≡ some d
            → any (is_key_of sha256 secret d.subject) db.api_keys ≡ true
        go none h = absurd (ground (arith, h))
        go (some rest) h = vouched secret db.api_keys d h

    let_in :
        (db : Db) (h : Headers) (secret : String) (key : ApiKeyAuth)
        → non_empty (key_secret h) ≡ some secret
        → require_api_key sha256 event_ingest db h ≡ ok key
        → any (is_key_of sha256 secret key.subject) db.api_keys ≡ true
    unfolding require_api_key
    let_in db h secret key sent passed =
        go (get_api_key_data sha256 db secret) (key_sound secret db)
          (ap (keyed sha256 event_ingest db) (sym sent) ∙ passed)
      where
        admitted_subject :
            (d : KeyData) → checked_key event_ingest (some d) ≡ ok key → d.subject ≡ key.subject
        admitted_subject d h = ground (arith, h)

        go :
            (o : Option KeyData)
            → ((d : KeyData)
                → o ≡ some d
                → any (is_key_of sha256 secret d.subject) db.api_keys ≡ true)
            → checked_key event_ingest o ≡ ok key
            → any (is_key_of sha256 secret key.subject) db.api_keys ≡ true
        go none sound h = absurd (ground (arith, h))
        go (some d) sound h =
            ap (λ s. any (is_key_of sha256 secret s) db.api_keys) (sym (admitted_subject d h))
            ∙ sound d refl

    -- Whatever a request to the ingestion endpoint does, one whose key is let in, of a service with an id,
    -- at most stores one event and publishes its message, and both are of the service of the key: for
    -- that service the table holds an active key with the prefix and the hash of the secret that was
    -- sent.
    pub post_event-Written :
        (opts : RateLimitOptions) (c : Call) (member : String) (s : Intake) (h : Headers)
        (input : IngestEventInput) (secret : String) (key : ApiKeyAuth)
        → non_empty (key_secret h) ≡ some secret
        → require_api_key sha256 event_ingest s.world.db h ≡ ok key
        → (key.subject == "") ≡ false
        → Written key.subject s (post_event o sha256 valid opts c member s h input).0
          × (any (is_key_of sha256 secret key.subject) s.world.db.api_keys ≡ true)
    unfolding post_event
    post_event-Written opts c member s h input secret key sent passed named = (
      subst (λ r. Written key.subject s (accepted o sha256 valid opts c member s input r).0)
          (sym passed)
          (limited-Written c s input key
            (rate_limiter opts s.world (event_limit_id key) c.now member) named
            (rate_limiter-db opts s.world (event_limit_id key) c.now member)),
      let_in s.world.db h secret key sent passed,
    )
