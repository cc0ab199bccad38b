-- ===== src/Redis/Counting.antt =====
-- The counters of a window: incrWithTtl over a series of calls.
use ops_mesh.Base.{
  ℕ, ◌+◌, ◌*◌, ◌≤◌, ◌<◌, ◌≡◌, refl, Option, none, some, List, [], ◌∷◌, String, lookup-insert,
  string_eq, nat_eq, arith, eq_iff,
}
use ops_mesh.Redis.{
  MemEntry, RedisMemory, is_expired, live, Decimal, incr, incr_with_ttl, expiry_of, counter_of,
  stamp,
}
use ops_mesh.Redis.Expiry.{alive, current, live_result, live_keeps}

module _ (d : Decimal) where
  counted : RedisMemory → String → ℕ → MemEntry
  counted r key now = record {
    value = d.to_text (counter_of d (current r key now) + 1);
    expires_at = expiry_of (current r key now);
  }

  incr_lem :
      (r : RedisMemory) (key : String) (now later : ℕ)
      → ((incr d r key now).1 ≡ counter_of d (current r key now) + 1)
        × (current (incr d r key now).0 key later ≡ alive (some (counted r key now)) later)
  unfolding incr current counted
  incr_lem r key now later = (
    ground (arith, live_result r key now),
    ground (
      arith,
      live_result r key now,
      lookup-insert key key (counted r key now) (live r key now).0.store,
      eq_iff key key,
    ),
  )

  current-stamp :
      (r : RedisMemory) (key : String) (at : ℕ) (e : MemEntry) (later : ℕ)
      → current (stamp r key at (some e)) key later
        ≡ alive (some (record e { expires_at = some at })) later
  unfolding current
  current-stamp r key at e later =
      ground
        (arith, lookup-insert key key (record e { expires_at = some at }) r.store, eq_iff key key)

  abbrev pub entry : ℕ → Option ℕ → MemEntry
  entry n expires_at = record { value = d.to_text n; expires_at = expires_at }

  -- From one time on and until the deadline the counter reads `n`, and carries that deadline.
  abbrev pub IsWindow : RedisMemory → String → ℕ → ℕ → ℕ → Type 0
  IsWindow r key n since at =
      (t : ℕ) → since ≤ t → t < at → current r key t ≡ some (entry n (some at))

  after_incr :
      (r : RedisMemory) (key : String) (now t n : ℕ) (at : Option ℕ)
      → counter_of d (current r key now) ≡ n
      → expiry_of (current r key now) ≡ at
      → current (incr d r key now).0 key t ≡ alive (some (entry (n + 1) at)) t
  unfolding counted
  after_incr r key now t n at c e = ground (arith, (incr_lem r key now t).1, c, e)

  incr_with_ttl_new :
      (r : RedisMemory) (key : String) (seconds now : ℕ)
      → current r key now ≡ none
      → ((incr_with_ttl d r key seconds now).1 ≡ 1)
        × IsWindow (incr_with_ttl d r key seconds now).0 key 1 now (now + seconds * 1000)
  unfolding incr_with_ttl is_expired
  incr_with_ttl_new r key seconds now h =
      let r' = (incr d r key now).0 in
      let fresh = after_incr r key now now 0 none (rw h) (rw h) in
      let seen = live_result r' key now in
      (
        ground (arith, (incr_lem r key now now).0),
        λ t le l. ground (
          arith,
          fresh,
          seen,
          current-stamp (live r' key now).0 key (now + seconds * 1000) (entry 1 none) t,
        ),
      )

  incr_with_ttl_next :
      (r : RedisMemory) (key : String) (seconds now n since at : ℕ)
      → IsWindow r key n since at
      → since ≤ now
      → now < at
      → ((incr_with_ttl d r key seconds now).1 ≡ n + 1)
        × IsWindow (incr_with_ttl d r key seconds now).0 key (n + 1) now at
  unfolding incr_with_ttl is_expired
  incr_with_ttl_next r key seconds now n since at w s l =
      let r' = (incr d r key now).0 in
      let count = d.round_trip n in
      let before = after_incr r key now now n (some at) (rw (w now s l) count) (rw (w now s l)) in
      let seen = live_result r' key now in
      (
        ground (arith, (incr_lem r key now now).0, w now s l, count),
        λ t le lt. ground (
          arith,
          before,
          seen,
          live_keeps r' key key now t,
          after_incr r key now t n (some at) (rw (w now s l) count) (rw (w now s l)),
        ),
      )

  -- A run of increments at the given times, with the counts that they return.
  unfoldable pub incr_all : RedisMemory → String → ℕ → List ℕ → List ℕ
  incr_all r key seconds [] = []
  incr_all r key seconds (now ∷ later) =
      let (r', n) = incr_with_ttl d r key seconds now in n ∷ incr_all r' key seconds later

  -- The times do not fall, and lie before a deadline.
  abbrev pub IsTimeline : ℕ → ℕ → List ℕ → Type 0
  IsTimeline since at [] = Unit
  IsTimeline since at (now ∷ later) = (since ≤ now) × (now < at) × IsTimeline now at later

  abbrev pub count_up : ℕ → List ℕ → List ℕ
  count_up n [] = []
  count_up n (_ ∷ later) = n ∷ count_up (n + 1) later

  incr_all_window :
      (r : RedisMemory) (key : String) (seconds n since at : ℕ) (times : List ℕ)
      → IsWindow r key n since at
      → IsTimeline since at times
      → incr_all r key seconds times ≡ count_up (n + 1) times
  unfolding incr_all
  incr_all_window r key seconds n since at [] w h = refl
  incr_all_window r key seconds n since at (now ∷ later) w (le, lt, h) =
      let (count, w') = incr_with_ttl_next r key seconds now n since at w le lt in
      ground (
        arith,
        count,
        incr_all_window (incr_with_ttl d r key seconds now).0 key seconds (n + 1) now at later w' h,
      )

  -- Fixed-window counting: where the key has no current entry, the first call returns 1 and opens a
  -- window of `seconds`; every further call before that window ends, at times that do not fall, returns
  -- one more than the call before it.
  pub incr_with_ttl_counts :
      (r : RedisMemory) (key : String) (seconds now : ℕ) (times : List ℕ)
      → current r key now ≡ none
      → IsTimeline now (now + seconds * 1000) times
      → incr_all r key seconds (now ∷ times) ≡ 1 ∷ count_up 2 times
  unfolding incr_all
  incr_with_ttl_counts r key seconds now times h line =
      let (one, w) = incr_with_ttl_new r key seconds now h in
      ground (
        arith,
        one,
        incr_all_window (incr_with_ttl d r key seconds now).0 key seconds 1 now
            (now + seconds * 1000) times w line,
      )
