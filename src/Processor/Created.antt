-- ===== src/Processor/Created.antt =====
-- What the insertion of an incident answers, and which incident a fingerprint finds.
use ops_mesh.Base.{
  ℕ, ◌≡◌, refl, subst, true, false, not, none, some, List, [], ◌∷◌, ◌++◌, String, ◌==◌, ◌&&◌,
  string_eq, find, any, arith, Bool-cases, Option-cases, eq_iff, eq_refl, inl, inr,
}
use ops_mesh.Types.{resolved}
use ops_mesh.Shared.StateMachine.{status_eq}
use ops_mesh.Db.{Db, IncidentRow, EventRow, has_id}
use ops_mesh.Errors.{ok}
use ops_mesh.Processor.{IngestedEventMessage, store_event, has_key, has_service_id, has_event_id}
use ops_mesh.Processor.Create.{
  CreateParams, create_incident_record, with_incident, on_call_engineer,
}
use ops_mesh.Processor.Tables.{IsDedupeUnique, KeyFree}

pub find_open-none :
    (k : String) (rs : List IncidentRow)
    → find (has_key k) rs ≡ none
    → find (λ r. has_key k r && not (r.status == resolved)) rs ≡ none
find_open-none k [] h = refl
find_open-none k (r ∷ rs) h = ground (arith, find_open-none k rs)

key_of : (k : String) (x : IncidentRow) → has_key k x ≡ true → x.dedupe_key ≡ some k
key_of k x h = elim (Option-cases x.dedupe_key) [
  | inl e ↦ absurd (ground (arith, e))
  | inr (o, e) ↦ ground (arith, e, eq_iff o k)
]

pub find_open-resolved :
    (k : String) (rs : List IncidentRow) (r : IncidentRow)
    → IsDedupeUnique rs
    → find (has_key k) rs ≡ some r
    → r.status ≡ resolved
    → find (λ r. has_key k r && not (r.status == resolved)) rs ≡ none
find_open-resolved k [] r u h res = refl
find_open-resolved k (x ∷ rs) r (free, u) h res = elim (Bool-cases (has_key k x)) [
  | inr e ↦ ground (arith, e, find_open-resolved k rs r u)
  | inl e ↦
      let rest = find_open-none k rs (subst (λ o. KeyFree o rs) (key_of k x e) free) in
      ground (arith, e, rest)
]

pub created :
    (p : CreateParams) (id : String) (now : ℕ) (db : Db)
    → find (has_key p.fingerprint) db.incidents ≡ none
    → any (has_id id) db.incidents ≡ false
    → any (has_service_id p.service_id) db.services ≡ true
    → any (has_event_id p.event_id) db.events ≡ true
    → create_incident_record p id now db
      ≡ ok (with_incident db p id (on_call_engineer db p.service_id now) now, id)
unfolding create_incident_record
created p id now db free new service event = ground arith

pub kept_as_is :
    (p : CreateParams) (id : String) (now : ℕ) (db : Db) (r : IncidentRow)
    → find (has_key p.fingerprint) db.incidents ≡ some r
    → create_incident_record p id now db ≡ ok (db, r.id)
unfolding create_incident_record
kept_as_is p id now db r h = ground arith

pub any-append_event :
    (id : String) (es : List EventRow) (e : EventRow)
    → e.id ≡ id
    → any (has_event_id id) (es ++ e ∷ []) ≡ true
any-append_event id [] e h = ground (arith, h, eq_refl id)
any-append_event id (x ∷ es) e h = ground (arith, any-append_event id es e h)

pub store_event-stores :
    (msg : IngestedEventMessage) (db db' : Db)
    → store_event msg db ≡ ok db'
    → any (has_event_id msg.event_id) db'.events ≡ true
unfolding store_event
store_event-stores msg db db' h = elim (Bool-cases (any (has_event_id msg.event_id) db.events)) [
  | inl e ↦ ground (arith, e, h)
  | inr e ↦ ground (
    arith,
    e,
    h,
    any-append_event msg.event_id db.events
        (record {
          id = msg.event_id;
          service_id = msg.service_id;
          event_type = msg.event_type;
          severity = msg.severity;
          message = msg.message;
          environment = msg.environment;
          timestamp = msg.timestamp;
          request_id = msg.request_id;
          fingerprint = msg.fingerprint;
          metadata = msg.metadata;
        })
        refl,
  )
]
