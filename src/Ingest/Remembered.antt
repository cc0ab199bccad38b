-- ===== src/Ingest/Remembered.antt =====
-- What the keys and the cache of the services remember.
use ops_mesh.Base.{
  ℕ, ◌+◌, ◌*◌, ◌<◌, ◌≡◌, refl, sym, ◌∙◌, ap, true, false, not, Option, none, some, List, [], ◌∷◌,
  ◌++◌, String, ◌==◌, string_eq, if◌then◌else◌, ◌&&◌, ◌||◌, any, is_some, arith, eq_iff, eq_refl,
  Bool-cases, inl, inr, lookup-insert, find,
}
use ops_mesh.Redis.{RedisMemory, MemEntry, get, set, exists, live, deadline, is_expired}
use ops_mesh.Redis.Expiry.{current, live_result, live_keeps}
use ops_mesh.Db.{ServiceRow}
use ops_mesh.World.{World}
use ops_mesh.Ingest.{
  ServiceRef, Outside, dedupe_window_seconds, cached_service, resolve_service, any_exists, set_all,
  from_table, or_table, service_key,
}

-- A key that counts at a time, in a store.

-- A key that counts at a time, in a store.
abbrev pub HasKey : RedisMemory → String → ℕ → Type 0
HasKey r k t = is_some (current r k t) ≡ true

set-HasKey :
    (r : RedisMemory) (k v j : String) (seconds now t : ℕ)
    → 0 < seconds
    → t < now + seconds * 1000
    → is_some (current (set r k v (some seconds) now) j t)
      ≡ (if k == j then true else is_some (current r j t))
unfolding set current deadline is_expired
set-HasKey r k v j seconds now t pos lt =
    let entry : MemEntry = record { value = v; expires_at = deadline (some seconds) now } in
    ground (arith, lookup-insert k j entry r.store, eq_iff k j)

pub set_all-HasKey :
    (keys : List String) (r : RedisMemory) (now t : ℕ) (k : String)
    → t < now + dedupe_window_seconds * 1000
    → (any (λ x. x == k) keys || is_some (current r k t)) ≡ true
    → HasKey (set_all r keys now) k t
unfolding set_all
set_all-HasKey [] r now t k lt h = h
set_all-HasKey (x ∷ keys) r now t k lt h =
    set_all-HasKey keys (set r x "1" (some dedupe_window_seconds) now) now t k lt
      (ground (arith, set-HasKey r x "1" k dedupe_window_seconds now t (omega arith) lt))

exists_result : (r : RedisMemory) (k : String) (t : ℕ) → (exists r k t).1 ≡ is_some (current r k t)
unfolding exists
exists_result r k t = ap is_some (live_result r k t)

exists_keeps :
    (r : RedisMemory) (k j : String) (t : ℕ) → current (exists r k t).0 j t ≡ current r j t
unfolding exists
exists_keeps r k j t = live_keeps r k j t t (omega arith)

pub any_exists-found :
    (keys : List String) (r : RedisMemory) (t : ℕ) (k : String)
    → any (λ x. x == k) keys ≡ true
    → HasKey r k t
    → (any_exists r keys t).1 ≡ true
unfolding any_exists
any_exists-found [] r t k h there = absurd (ground arith)
any_exists-found (x ∷ keys) r t k h there = elim (Bool-cases (exists r x t).1) [
  | inl e ↦ rw e refl
  | inr e ↦
      let gone = sym (exists_result r x t) ∙ e in
      rw e (
        any_exists-found keys (exists r x t).0 t k (later h gone)
          (ap is_some (exists_keeps r x k t) ∙ there))
]
  where
    clash : is_some (current r x t) ≡ is_some (current r k t) → is_some (current r x t) ≡ false → ⊥
    clash e gone = ground (arith, e, gone, there)

    later :
        any (λ y. y == k) (x ∷ keys) ≡ true
        → is_some (current r x t) ≡ false
        → any (λ y. y == k) keys ≡ true
    later h gone = elim (Bool-cases (x == k)) [
      | inl e ↦ absurd (clash (ap (λ i. is_some (current r i t)) ((eq_iff x k).0 e)) gone)
      | inr e ↦ ground (arith, e, h)
    ]

pub any-last : (xs : List String) (k : String) → any (λ x. x == k) (xs ++ k ∷ []) ≡ true
any-last [] k = ground (arith, eq_refl k)
any-last (x ∷ xs) k = ground (arith, any-last xs k)

-- A world whose Redis can be reached and HasKey a key.
abbrev pub Holds : World → String → ℕ → Type 0
Holds w k t = (r : RedisMemory) × (w.cache ≡ some r) × HasKey r k t

pub Holds-is_some : (w : World) (k : String) (t : ℕ) → Holds w k t → is_some w.cache ≡ true
Holds-is_some w k t (r, e, h) = ground (arith, e)

module _ (o : Outside) where
  pub cached_service-Holds :
      (w : World) (name k : String) (t : ℕ) → Holds w k t → Holds (cached_service o w name t).0 k t
  unfolding cached_service get
  cached_service-Holds w name k t (r, e, h) = rw e (
    (live r (service_key name) t).0,
    refl,
    ap is_some (live_keeps r (service_key name) k t t (omega arith)) ∙ h,
  )

  pub or_table-Holds :
      (name k : String) (t : ℕ) (p : World × Option ServiceRef)
      → Holds p.0 k t
      → Holds (or_table o name t p).0 k t
  or_table-Holds name k t (w, some svc) h = h
  or_table-Holds name k t (w, none) (r, e, h) =
      go (find (λ s. s.name == name && not s.deleted) w.db.services)
    where
      go : (s : Option ServiceRow) → Holds (from_table o w name t s).0 k t
      go none = (r, e, h)
      go (some s) =
          let svc : ServiceRef = record { id = s.id; name = s.name } in
          rw e (
            set r (service_key name) (o.write svc) (some 60) t,
            refl,
            set-HasKey r (service_key name) (o.write svc) k 60 t t (omega arith) (omega arith)
                ∙ ground (arith, h),
          )

  pub resolve_service-Holds :
      (w : World) (name k : String) (t : ℕ) → Holds w k t → Holds (resolve_service o w name t).0 k t
  unfolding resolve_service
  resolve_service-Holds w name k t h =
      or_table-Holds name k t (cached_service o w name t) (cached_service-Holds w name k t h)

  -- Neither reading the cached service nor the table changes the database.
  cached_service-db : (w : World) (name : String) (t : ℕ) → (cached_service o w name t).0.db ≡ w.db
  unfolding cached_service
  cached_service-db w name t = ground arith

  or_table-db :
      (name : String) (t : ℕ) (p : World × Option ServiceRef) → (or_table o name t p).0.db ≡ p.0.db
  or_table-db name t (w, some svc) = refl
  or_table-db name t (w, none) = go (find (λ s. s.name == name && not s.deleted) w.db.services)
    where
      go : (s : Option ServiceRow) → (from_table o w name t s).0.db ≡ w.db
      go none = refl
      go (some s) = ground arith

  pub resolve_service-db :
      (w : World) (name : String) (t : ℕ) → (resolve_service o w name t).0.db ≡ w.db
  unfolding resolve_service
  resolve_service-db w name t =
      or_table-db name t (cached_service o w name t) ∙ cached_service-db w name t
  -- A request whose key counts is answered as a duplicate, and changes neither table nor queue.
