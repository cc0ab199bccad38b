-- ===== src/Redis/Window.antt =====
-- The sliding window log counts exactly the calls of the last window.
use ops_mesh.Base.{
  ℕ, ◌+◌, ◌*◌, ◌≤◌, ◌≡◌, refl, sym, ap, Bool, not, none, [], ◌∷◌, ◌++◌, String, Map, lookup, insert,
  lookup-insert, insert-append, lookup-filter-none, filter, length, length-append, ltb,
  if◌then◌else◌, ◌==◌, string_eq, eq_iff, arith, Bool-cases, inl, inr,
}
use ops_mesh.Redis.{RedisMemory, members_of, sliding_window_add, new_redis}

-- A call that was made at time `e.1` still counts at `now`: `score >= now - windowSeconds * 1000`.
abbrev pub is_recent : ℕ → ℕ → String × ℕ → Bool
is_recent window_seconds now e = not (ltb (e.1 + window_seconds * 1000) now)

abbrev pub log_of : RedisMemory → String → Map ℕ
log_of r key = members_of (lookup key r.sorted_sets)

-- What the store holds for a key after the calls `seen`, oldest first, the last at time `last`.
abbrev pub IsLog : RedisMemory → String → ℕ → ℕ → Map ℕ → Type 0
IsLog r key window_seconds last seen = log_of r key ≡ filter (is_recent window_seconds last) seen

filter-filter_later :
    (w last now : ℕ) (seen : Map ℕ)
    → last ≤ now
    → filter (is_recent w now) (filter (is_recent w last) seen) ≡ filter (is_recent w now) seen
filter-filter_later w last now [] h = refl
filter-filter_later w last now (e ∷ seen) h = ground (arith, filter-filter_later w last now seen h)

filter-snoc :
    (w now : ℕ) (seen : Map ℕ) (m : String)
    → filter (is_recent w now) (seen ++ (m, now) ∷ [])
      ≡ filter (is_recent w now) seen ++ (m, now) ∷ []
filter-snoc w now [] m = ground arith
filter-snoc w now (e ∷ seen) m = ground (arith, filter-snoc w now seen m)

-- The log refines the history of calls: if the store's log for a key is what is left of the calls
-- `seen`, then after one more call, no earlier than the last and with a new member text, it is what is
-- left of `seen` and that call; the answer is the number of calls of the window that ends now, this
-- one included; and the log of every other key `j` is as it was.
pub sliding_window_add_lem :
    (r : RedisMemory) (key : String) (w last now : ℕ) (seen : Map ℕ) (member j : String)
    → IsLog r key w last seen
    → last ≤ now
    → lookup member seen ≡ none
    → let (r', count) = sliding_window_add r key w now member in
      IsLog r' key w now (seen ++ (member, now) ∷ [])
      × (count ≡ length (filter (is_recent w now) seen) + 1)
      × (log_of r' j ≡ (if key == j then log_of r' key else log_of r j))
unfolding sliding_window_add
sliding_window_add_lem r key w last now seen member j log le new =
    let kept = filter (is_recent w now) seen in
    let old : filter (is_recent w now) (log_of r key) ≡ kept =
      rw log (filter-filter_later w last now seen le) in
    let put : insert member now kept ≡ kept ++ (member, now) ∷ [] =
      insert-append member now kept (lookup-filter-none member (is_recent w now) seen new) in
    (
      ground (
        arith,
        old,
        put,
        filter-snoc w now seen member,
        eq_iff key key,
        lookup-insert key key (insert member now (filter (is_recent w now) (log_of r key)))
            r.sorted_sets,
      ),
      ground (arith, old, put, length-append {0} kept ((member, now) ∷ [])),
      elim (Bool-cases (key == j)) [
        | inl e ↦ rw e (
            ap (λ k. log_of (sliding_window_add r key w now member).0 k) (sym ((eq_iff key j).0 e)))
        | inr e ↦ ground (
          arith,
          e,
          lookup-insert key j (insert member now (filter (is_recent w now) (log_of r key)))
              r.sorted_sets,
        )
      ],
    )

-- Before the first call a store holds the log of no calls.
pub new_redis-IsLog : (key : String) (w : ℕ) → IsLog new_redis key w 0 []
unfolding new_redis lookup
new_redis-IsLog key w = refl
