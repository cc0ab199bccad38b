-- ===== src/Tests/Monitoring.antt =====
-- Runs of the rate limiter and of the health checks.
use ops_mesh.Base.{ℕ, ◌≡◌, refl, true, List, [], ◌∷◌, lookup, filter, length, ltb, arith}
use ops_mesh.Redis.{new_redis}
use ops_mesh.Redis.Window.{is_recent, new_redis-IsLog}
use ops_mesh.RateLimit.{RateLimitOptions, limit_key, rate_limiter}
use ops_mesh.RateLimit.Quota.{is_admitted, IsQuota, rate_limiter_lem}
use ops_mesh.Health.{
  HealthCheckServiceRow, Response, answered, aborted, failed, HealthCheckWorker, poll,
}
use ops_mesh.Health.Alternate.{IsAlternating, poll-IsAlternating}
use ops_mesh.Tests.Data.{world, show}

abbrev options : RateLimitOptions
options = record { window_seconds = 60; max = 100; headers = true }

rate_limiter_lem_example :
    (is_admitted (rate_limiter options world "anna" 1000 "m1").1
      ≡ ltb (length (filter (is_recent 60 1000) [])) 100)
    × IsQuota (rate_limiter options world "anna" 1000 "m1").0 "anna" 60 1000 (("m1", 1000) ∷ [])
rate_limiter_lem_example =
    rate_limiter_lem options world "anna" 0 1000 [] "m1"
      (new_redis, refl, new_redis-IsLog (limit_key "anna") 60) (omega arith) (unfold lookup in refl)

abbrev row : HealthCheckServiceRow
row = record {
  id = "checkout";
  name = "checkout";
  health_check_url = "http://checkout/health";
  health_check_method = "GET";
  health_check_timeout = 5000;
  expected_status = 200;
}

-- Three failures of different kinds, and a recovery.
abbrev checks : List (HealthCheckServiceRow × ℕ × Response)
checks =
    (row, 10, answered 500)
    ∷ (row, 5000, aborted)
    ∷ (row, 3, failed "refused")
    ∷ (row, 8, answered 200)
    ∷ []

abbrev worker : HealthCheckWorker
worker = record { world = world; consecutive_failures = []; published = [] }

worker-IsAlternating : IsAlternating worker "checkout"
unfolding lookup
worker-IsAlternating = refl

poll-IsAlternating_example : IsAlternating (poll show worker checks) "checkout"
poll-IsAlternating_example = poll-IsAlternating show worker checks "checkout" worker-IsAlternating
