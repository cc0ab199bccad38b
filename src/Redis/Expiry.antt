-- ===== src/Redis/Expiry.antt =====
-- What a read sees after a write, until when a lock holds, and how a window counter counts.
use ops_mesh.Base.{
  ℕ, ◌+◌, ◌*◌, ◌≤◌, ◌<◌, ◌≡◌, sym, ◌∙◌, inl, inr, true, false, not, Option, none, some, String,
  lookup, erase, lookup-insert, lookup-erase, leb, ◌==◌, string_eq, nat_eq, if◌then◌else◌, is_some,
  arith, eq_iff, Bool-cases,
}
use ops_mesh.Redis.{MemEntry, RedisMemory, is_expired, live, get, deadline, set, set_nx, value_of}

-- The entry that counts at a time: one that is there and has not expired.

abbrev pub alive : Option MemEntry → ℕ → Option MemEntry
alive none now = none
alive (some e) now = if is_expired e.expires_at now then none else some e

unfoldable pub current : RedisMemory → String → ℕ → Option MemEntry
unfolding is_expired
current r key now = alive (lookup key r.store) now

pub is_expired_mono :
    (e : Option ℕ) (now later : ℕ)
    → is_expired e now ≡ true
    → now ≤ later
    → is_expired e later ≡ true
unfolding is_expired
is_expired_mono e now later h l = ground arith

-- `live` answers the current entry, and leaves every key's current entry as it was.
pub live_result :
    (r : RedisMemory) (key : String) (now : ℕ) → (live r key now).1 ≡ current r key now
unfolding live current
live_result r key now = ground arith

pub live_keeps :
    (r : RedisMemory) (key j : String) (now later : ℕ)
    → now ≤ later
    → current (live r key now).0 j later ≡ current r j later
unfolding live current
live_keeps r key j now later h = ground (arith, lookup-erase key j r.store, eq_iff key j)

-- A read at any key and any later time, after a write that may carry a time to live: at the written
-- key it sees the value until the deadline, and nothing from the deadline on; at every other key it
-- sees what a read before the write would have seen. A time to live of 0 counts as none.
pub get-set :
    (r : RedisMemory) (k j value : String) (ttl : Option ℕ) (now later : ℕ)
    → (get (set r k value ttl now) j later).1 ≡ (
        if k == j
        then (if is_expired (deadline ttl now) later then none else some value)
        else (get r j later).1)
unfolding get set
get-set r k j value ttl now later =
    let entry : MemEntry = record { value = value; expires_at = deadline ttl now } in
    ground (arith, lookup-insert k j entry r.store, eq_iff k j)

pub get_result :
    (r : RedisMemory) (key : String) (now : ℕ) → (get r key now).1 ≡ value_of (current r key now)
unfolding get current
get_result r key now = ground arith

set_nx_result :
    (r : RedisMemory) (key v : String) (t : Option ℕ) (now : ℕ)
    → (set_nx r key v t now).1 ≡ not (is_some (current r key now))
unfolding set_nx current
set_nx_result r key v t now = ground arith

set_nx_refused :
    (r : RedisMemory) (key v : String) (t : Option ℕ) (now later : ℕ)
    → (set_nx r key v t now).1 ≡ false
    → now ≤ later
    → current (set_nx r key v t now).0 key later ≡ current r key later
unfolding set_nx current
set_nx_refused r key v t now later h l =
    ground (arith, lookup-erase key key r.store, eq_iff key key)

set_nx_taken :
    (r : RedisMemory) (key v : String) (t : Option ℕ) (now later : ℕ)
    → (set_nx r key v t now).1 ≡ true
    → current (set_nx r key v t now).0 key later
      ≡ alive (some (record { value = v; expires_at = deadline t now })) later
unfolding set_nx current
set_nx_taken r key v t now later h =
    let entry : MemEntry = record { value = v; expires_at = deadline t now } in
    ground (
      arith,
      lookup-insert key key entry r.store,
      lookup-insert key key entry (erase key r.store),
      eq_iff key key,
    )

pub deadline_pos :
    (seconds now later : ℕ)
    → 0 < seconds
    → is_expired (deadline (some seconds) now) later ≡ leb (now + seconds * 1000) later
unfolding deadline is_expired
deadline_pos seconds now later h = ground arith

-- A lock taken with a positive time to live excludes every other caller until its deadline, and the
-- refused call leaves the owner's value readable; from the deadline on the next caller takes it.
pub set_nx_exclusive :
    (r : RedisMemory) (key a b : String) (seconds now later : ℕ) (again : Option ℕ)
    → 0 < seconds
    → (set_nx r key a (some seconds) now).1 ≡ true
    → let held = (set_nx r key a (some seconds) now).0 in
      (later < now + seconds * 1000
        → ((set_nx held key b again later).1 ≡ false)
          × ((get (set_nx held key b again later).0 key later).1 ≡ some a))
      × (now + seconds * 1000 ≤ later → (set_nx held key b again later).1 ≡ true)
set_nx_exclusive r key a b seconds now later again pos h =
    let held = (set_nx r key a (some seconds) now).0 in
    let seen = set_nx_taken r key a (some seconds) now later h in
    let due = deadline_pos seconds now later pos in
    let asked = set_nx_result held key b again later in
    let shown = get_result (set_nx held key b again later).0 key later in
    (
      (λ early. (
        ground (arith, seen, due, asked),
        ground (arith, seen, due, asked, shown, set_nx_refused held key b again later later),
      )),
      (λ late. ground (arith, seen, due, asked)),
    )

-- A lock taken with a positive time to live is refused to every other caller until its deadline, and
-- given to the next caller from the deadline on.
pub set_nx_again :
    (r : RedisMemory) (key a b : String) (seconds now later : ℕ) (again : Option ℕ)
    → 0 < seconds
    → (set_nx r key a (some seconds) now).1 ≡ true
    → (set_nx (set_nx r key a (some seconds) now).0 key b again later).1
      ≡ leb (now + seconds * 1000) later
set_nx_again r key a b seconds now later again pos taken =
    let (refuse, grant) = set_nx_exclusive r key a b seconds now later again pos taken in
    elim (Bool-cases (leb (now + seconds * 1000) later)) [
      | inl e ↦ grant (ground (arith, e)) ∙ sym e
      | inr e ↦ (refuse (ground (arith, e))).0 ∙ sym e
    ]
