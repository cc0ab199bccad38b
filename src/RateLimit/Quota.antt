-- ===== src/RateLimit/Quota.antt =====
-- What the limiter promises, and what a refused request costs.
use ops_mesh.Base.{
  ℕ, ◌+◌, ◌≤◌, ◌≡◌, refl, Bool, true, false, none, some, [], ◌∷◌, ◌++◌, String, Map, lookup, filter,
  length, ltb, arith,
}
use ops_mesh.Redis.{RedisMemory, sliding_window_add}
use ops_mesh.Redis.Window.{is_recent, IsLog, sliding_window_add_lem}
use ops_mesh.World.{World}
use ops_mesh.RateLimit.{
  RateLimitOptions, Passage, admitted, refused, decide, limit_key, rate_limiter,
}

abbrev pub is_admitted : Passage → Bool
is_admitted (admitted h) = true
is_admitted (refused e t h) = false

-- The log of a world's limiter is what is left of the requests `seen`, the last at time `last`.
abbrev pub IsQuota : World → String → ℕ → ℕ → Map ℕ → Type 0
IsQuota w id window_seconds last seen =
    (r : RedisMemory) × (w.cache ≡ some r) × IsLog r (limit_key id) window_seconds last seen

-- A request is admitted exactly when fewer than `max` requests of its key lie in the window that ends
-- with it, refused ones included: whether it is admitted or refused, it is added to the log, so that
-- refused requests use up the quota of later ones.
pub rate_limiter_lem :
    (opts : RateLimitOptions) (w : World) (id : String) (last now : ℕ) (seen : Map ℕ)
    (member : String)
    → IsQuota w id opts.window_seconds last seen
    → last ≤ now
    → lookup member seen ≡ none
    → (let (w', passage) = rate_limiter opts w id now member in
        (is_admitted passage
          ≡ ltb (length (filter (is_recent opts.window_seconds now) seen)) opts.max)
        × IsQuota w' id opts.window_seconds now (seen ++ (member, now) ∷ []))
unfolding rate_limiter decide
rate_limiter_lem opts w id last now seen member (r, up, log) le new =
    let (logged, count, _) =
      sliding_window_add_lem r (limit_key id) opts.window_seconds last now seen member "" log le
        new in
    rw up (
      passes (sliding_window_add r (limit_key id) opts.window_seconds now member).1 count,
      ((sliding_window_add r (limit_key id) opts.window_seconds now member).0, refl, logged),
    )
  where
    passes :
        (n : ℕ)
        → n ≡ length (filter (is_recent opts.window_seconds now) seen) + 1
        → is_admitted (decide opts n)
          ≡ ltb (length (filter (is_recent opts.window_seconds now) seen)) opts.max
    passes n e = unfold decide in ground (arith, e)
