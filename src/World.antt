-- ===== src/World.antt =====
-- The state that the processes share, transactions (common/db.ts of both apps), and the dedupe cache
-- (activeIncidentKey, setDedupeCache, getDedupeCache and clearDedupeCache of incidents.service.ts,
-- refreshDedupeWindow of event.processor.ts).
pub mod Cache
pub mod Transaction
use Prim.Native.String
use ops_mesh.Base.{
  ℕ, ◌+◌, ◌*◌, ◌≡◌, refl, Bool, true, false, Option, none, some, List, [], ◌∷◌, ◌++◌, String, ◌==◌,
  string_eq, if◌then◌else◌,
}
use ops_mesh.Types.{IncidentStatus}
use ops_mesh.Db.{Db}
use ops_mesh.Errors.{Result, ok, err}
use ops_mesh.Redis.{RedisMemory, get, set, del}

-- A template literal, as the list of its parts.
abbrev pub text : List String → String
text [] = ""
text (s ∷ []) = s
text (s ∷ t ∷ rest) = String.◌++◌ s (text (t ∷ rest))

-- The realtime messages, with the fields that carry meaning: `incident.created`, `incident.updated`
-- and `event.ingested` name an incident or an event.
pub data Broadcast : Type 0 where
  incident_updated : (incident_id : String) (status : Option IncidentStatus) → Broadcast
  incident_created : (incident_id : String) → Broadcast
  event_ingested : (event_id : String) → Broadcast
  notification_dispatched : (notification_id : String) → Broadcast
  service_health : (service_id : String) (healthy : Bool) → Broadcast

-- `cache` is none while Redis cannot be reached: every command throws then.
pub record World : Type 0 where
  pub db : Db
  pub cache : Option RedisMemory
  pub broadcasts : List Broadcast

abbrev pub emit : World → Broadcast → World
emit w b = record w { broadcasts = w.broadcasts ++ b ∷ [] }

-- `transaction(fn)`: what `fn` wrote is committed if it returns, and rolled back if it throws.
unfoldable pub transaction {ℓ} : {A : Type ℓ} → (Db → Result (Db × A)) → Db → Db × Result A
transaction fn db = elim (fn db) [ ok (db', a) ↦ (db', ok a) | err e ↦ (db, err e) ]

-- How `JSON.stringify` writes the cached object and `JSON.parse(...).incidentId` reads it; none where
-- the parser throws or finds no id.
pub record Json : Type 0 where
  pub write : String → String
  pub read : String → Option String
  pub read-write : (incident_id : String) → read (write incident_id) ≡ some incident_id

abbrev pub fingerprint_window_seconds : ℕ
fingerprint_window_seconds = 30 * 60

unfoldable pub active_incident_key : String → String
active_incident_key dedupe_key = String.◌++◌ "inc:active:" dedupe_key

module _ (j : Json) where
  abbrev pub parsed : Option String → Option String
  parsed none = none
  parsed (some v) = j.read v

  -- The cached incident of a fingerprint; none also where Redis is down or the parser throws.
  unfoldable pub cached_incident : World → String → ℕ → World × Option String
  cached_incident w fingerprint now = elim w.cache [
    | none ↦ (w, none)
    | some r ↦
        let (r', v) = get r (active_incident_key fingerprint) now in
        (record w { cache = some r' }, parsed v)
  ]

  unfoldable pub refresh_dedupe_window : World → String → String → ℕ → World
  refresh_dedupe_window w fingerprint incident_id now = elim w.cache [
    | none ↦ w
    | some r ↦ record w {
      cache = some (
          set r (active_incident_key fingerprint) (j.write incident_id)
            (some fingerprint_window_seconds) now);
    }
  ]

  abbrev points_at : String → Option String → Bool
  points_at incident_id none = false
  points_at incident_id (some i) = i == incident_id

  -- The rejection of the call is ignored where it is made, so Redis being down changes nothing.
  unfoldable pub clear_dedupe_cache : World → String → String → ℕ → World
  clear_dedupe_cache w dedupe_key incident_id now = elim w.cache [
    | none ↦ w
    | some r ↦
        let (r', v) = get r (active_incident_key dedupe_key) now in
        record w {
          cache = some (
              if points_at incident_id (parsed v)
              then del r' (active_incident_key dedupe_key ∷ [])
              else r');
        }
  ]
