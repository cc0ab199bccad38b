-- ===== src/World/Cache.antt =====
-- What a read of the dedupe cache sees.
use ops_mesh.Base.{ℕ, ◌+◌, ◌*◌, ◌<◌, ◌≡◌, false, some, String, string_eq, arith, eq_iff}
use ops_mesh.Redis.{RedisMemory, is_expired, deadline}
use ops_mesh.Redis.Expiry.{get-set}
use ops_mesh.World.{
  World, Json, cached_incident, refresh_dedupe_window, active_incident_key,
  fingerprint_window_seconds,
}

module _ (j : Json) where
  in_window :
      (now later : ℕ)
      → later < now + fingerprint_window_seconds * 1000
      → is_expired (deadline (some fingerprint_window_seconds) now) later ≡ false
  unfolding is_expired deadline
  in_window now later lt = ground arith

  -- For half an hour after an incident was noted for a fingerprint, while Redis can be reached, a look
  -- at the cache finds that incident.
  pub cached_incident-refresh_dedupe_window :
      (w : World) (r : RedisMemory) (fingerprint incident_id : String) (now later : ℕ)
      → w.cache ≡ some r
      → later < now + fingerprint_window_seconds * 1000
      → (cached_incident j
          (refresh_dedupe_window j w fingerprint incident_id now)
          fingerprint
          later).1
        ≡ some incident_id
  unfolding cached_incident refresh_dedupe_window
  cached_incident-refresh_dedupe_window w r fingerprint incident_id now later up lt =
      let key = active_incident_key fingerprint in
      ground (
        arith,
        up,
        get-set r key key (j.write incident_id) (some fingerprint_window_seconds) now later,
        eq_iff key key,
        in_window now later lt,
        j.read-write incident_id,
      )

  -- A cache read leaves the database and the messages as they are.
  pub cached_incident-db :
      (w : World) (fingerprint : String) (now : ℕ)
      → ((cached_incident j w fingerprint now).0.db ≡ w.db)
        × ((cached_incident j w fingerprint now).0.broadcasts ≡ w.broadcasts)
  unfolding cached_incident
  cached_incident-db w fingerprint now = ground arith
