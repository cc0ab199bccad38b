-- ===== src/RateLimit.antt =====
-- apps/api/src/middleware/rate-limit.ts: the sliding-window limiter. Which key a request counts for
-- (`keyFor`) is an argument.
pub mod Quota
use ops_mesh.Base.{
  ℕ, ◌+◌, ◌-◌, Bool, true, false, Option, none, some, List, [], ◌∷◌, String, ltb, if◌then◌else◌,
}
use ops_mesh.Redis.{RedisMemory, sliding_window_add}
use ops_mesh.Errors.{AppError, rate_limit_error}
use ops_mesh.World.{World, text}

pub record RateLimitOptions : Type 0 where
  pub window_seconds : ℕ
  pub max : ℕ
  pub headers : Bool

-- The `X-RateLimit-*` headers.
pub record RateHeaders : Type 0 where
  pub limit : ℕ
  pub remaining : ℕ
  pub window : ℕ

-- How the middleware ends: `next()` or `next(error)`, with the headers it set. The details of the
-- error, which repeat the options, are left out.
pub data Passage : Type 0 where
  admitted : Option RateHeaders → Passage
  refused : AppError → (retry_after : ℕ) → Option RateHeaders → Passage

abbrev pub headers_of : RateLimitOptions → ℕ → Option RateHeaders
headers_of opts count =
    if opts.headers
    then some
        (record { limit = opts.max; remaining = opts.max - count; window = opts.window_seconds })
    else none

unfoldable pub decide : RateLimitOptions → ℕ → Passage
decide opts count =
    if ltb opts.max count
    then refused (rate_limit_error "Rate limit exceeded") opts.window_seconds
        (headers_of opts count)
    else admitted (headers_of opts count)

abbrev pub limit_key : String → String
limit_key id = text ("rl:" ∷ id ∷ [])

-- A failure of Redis admits the request.
unfoldable pub rate_limiter : RateLimitOptions → World → String → ℕ → String → World × Passage
rate_limiter opts w id now member = elim w.cache [
  | none ↦ (w, admitted none)
  | some r ↦
      let (r', count) = sliding_window_add r (limit_key id) opts.window_seconds now member in
      (record w { cache = some r' }, decide opts count)
]
