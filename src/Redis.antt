-- ===== src/Redis.antt =====
-- packages/infra/src/redis.ts, class RedisMemory. Times are milliseconds; `now` is what `Date.now()`
-- answers during the call. The methods return the new store and their result. Each is `async`, but
-- none waits, so a call is one step.
pub mod Counting
pub mod Expiry
pub mod Window
use ops_mesh.Base.{
  ◌≡◌, ℕ, ◌+◌, ◌-◌, ◌*◌, ◌/◌, max, Bool, true, false, not, Option, none, some, List, [], ◌∷◌,
  String, Map, lookup, insert, erase, filter, length, leb, ltb, ◌==◌, string_eq, nat_eq,
  if◌then◌else◌, is_some,
}

pub record MemEntry : Type 0 where
  pub value : String
  pub expires_at : Option ℕ

pub record RedisMemory : Type 0 where
  pub store : Map MemEntry
  pub hash_store : Map (Map String)
  pub sorted_sets : Map (Map ℕ)

unfoldable pub new_redis : RedisMemory
new_redis = record { store = []; hash_store = []; sorted_sets = [] }

-- `e.expiresAt !== null && e.expiresAt <= Date.now()`
unfoldable pub is_expired : Option ℕ → ℕ → Bool
is_expired none now = false
is_expired (some at) now = leb at now

-- An expired entry is deleted when it is looked at.
unfoldable pub live_entry :
    RedisMemory → String → ℕ → Option MemEntry → RedisMemory × Option MemEntry
unfolding is_expired
live_entry r key now none = (r, none)
live_entry r key now (some e) =
    if is_expired e.expires_at now
    then (record r { store = erase key r.store }, none)
    else (r, some e)

unfoldable pub live : RedisMemory → String → ℕ → RedisMemory × Option MemEntry
unfolding live_entry
live r key now = live_entry r key now (lookup key r.store)

abbrev pub value_of : Option MemEntry → Option String
value_of none = none
value_of (some e) = some e.value

unfoldable pub get : RedisMemory → String → ℕ → RedisMemory × Option String
unfolding live
get r key now = let (r', e) = live r key now in (r', value_of e)

-- `opts?.ttlSeconds ? Date.now() + opts.ttlSeconds * 1000 : null`: a time to live of 0 is none.
unfoldable pub deadline : Option ℕ → ℕ → Option ℕ
deadline none now = none
deadline (some ttl) now = if ttl == 0 then none else some (now + ttl * 1000)

unfoldable pub set : RedisMemory → String → String → Option ℕ → ℕ → RedisMemory
unfolding deadline
set r key value ttl now = record r {
  store = insert key (record { value = value; expires_at = deadline ttl now }) r.store;
}

unfoldable pub del : RedisMemory → List String → RedisMemory
del r [] = r
del r (k ∷ keys) = del (record r { store = erase k r.store }) keys

abbrev pub expiry_of : Option MemEntry → Option ℕ
expiry_of none = none
expiry_of (some e) = e.expires_at

-- How `Number(text)` and `String(number)` convert; the language's own conversions.
pub record Decimal : Type 0 where
  pub to_number : String → ℕ
  pub to_text : ℕ → String
  pub round_trip : (n : ℕ) → to_number (to_text n) ≡ n

module _ (d : Decimal) where
  abbrev pub counter_of : Option MemEntry → ℕ
  counter_of none = 0
  counter_of (some e) = d.to_number e.value

  unfoldable pub incr : RedisMemory → String → ℕ → RedisMemory × ℕ
  unfolding live
  incr r key now =
      let (r', cur) = live r key now in
      let next = counter_of cur + 1 in
      let entry : MemEntry = record { value = d.to_text next; expires_at = expiry_of cur } in
      (record r' { store = insert key entry r'.store }, next)

-- `e.expiresAt = Date.now() + seconds * 1000` on the entry that the map holds
abbrev pub stamp : RedisMemory → String → ℕ → Option MemEntry → RedisMemory
stamp r key at none = r
stamp r key at (some e) = record r {
  store = insert key (record e { expires_at = some at }) r.store;
}

unfoldable pub expire : RedisMemory → String → ℕ → ℕ → RedisMemory
unfolding live
expire r key seconds now = let (r', e) = live r key now in stamp r' key (now + seconds * 1000) e

-- The answer -1, for no entry or no deadline, is `none`.
abbrev remaining : Option ℕ → ℕ → Option ℕ
remaining none now = none
remaining (some at) now = some ((at - now) / 1000)

unfoldable pub ttl : RedisMemory → String → ℕ → RedisMemory × Option ℕ
unfolding live
ttl r key now = let (r', e) = live r key now in (r', remaining (expiry_of e) now)

unfoldable pub exists : RedisMemory → String → ℕ → RedisMemory × Bool
unfolding live
exists r key now = let (r', e) = live r key now in (r', is_some e)

abbrev fields_of : Option (Map String) → Map String
fields_of none = []
fields_of (some m) = m

unfoldable pub hset : RedisMemory → String → String → String → RedisMemory
hset r key field value = record r {
  hash_store = insert key (insert field value (fields_of (lookup key r.hash_store))) r.hash_store;
}

unfoldable pub hget : RedisMemory → String → String → Option String
hget r key field = lookup field (fields_of (lookup key r.hash_store))

abbrev hdel_in : RedisMemory → String → String → Option (Map String) → RedisMemory
hdel_in r key field none = r
hdel_in r key field (some m) = record r { hash_store = insert key (erase field m) r.hash_store }

unfoldable pub hdel : RedisMemory → String → String → RedisMemory
hdel r key field = hdel_in r key field (lookup key r.hash_store)

unfoldable pub hgetall : RedisMemory → String → Map String
hgetall r key = fields_of (lookup key r.hash_store)

module _ (d : Decimal) where
  -- the entry that `incr` left, if it has no deadline yet
  abbrev pub stamp_new : RedisMemory → String → ℕ → Option MemEntry → RedisMemory
  stamp_new r key at none = r
  stamp_new r key at (some e) = if is_some e.expires_at then r else stamp r key at (some e)

  unfoldable pub incr_with_ttl : RedisMemory → String → ℕ → ℕ → RedisMemory × ℕ
  incr_with_ttl r key seconds now =
      let (r', n) = incr d r key now in
      let (r'', e) = live r' key now in (stamp_new r'' key (now + seconds * 1000) e, n)

unfoldable pub set_nx : RedisMemory → String → String → Option ℕ → ℕ → RedisMemory × Bool
unfolding live set
set_nx r key value ttl now =
    let (r', e) = live r key now in
    if is_some e then (r', false) else (set r' key value ttl now, true)

abbrev pub members_of : Option (Map ℕ) → Map ℕ
members_of none = []
members_of (some zs) = zs

-- `member` is the text `${now}-${Math.random()}`; `cutoff` may lie before time 0, so the test
-- `score < cutoff` is written as a sum.
unfoldable pub sliding_window_add : RedisMemory → String → ℕ → ℕ → String → RedisMemory × ℕ
sliding_window_add r key window_seconds now member =
    let kept =
      filter (λ e. not (ltb (e.1 + window_seconds * 1000) now))
        (members_of (lookup key r.sorted_sets)) in
    let zs = insert member now kept in
    (record r { sorted_sets = insert key zs r.sorted_sets }, length zs)

unfoldable pub close : RedisMemory → RedisMemory
close r = record { store = []; hash_store = []; sorted_sets = [] }
