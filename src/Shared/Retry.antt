-- ===== src/Shared/Retry.antt =====
-- packages/shared/src/utils/index.ts: calculateBackoff and retryWithBackoff.
pub mod Laws
use ops_mesh.Base.{
  ℕ, zero, suc, ◌+◌, ◌-◌, ◌*◌, ◌/◌, ◌^◌, Bool, true, false, not, Option, none, some, List, [], ◌∷◌,
  ◌++◌, min, ◌==◌, nat_eq, if◌then◌else◌,
}

abbrev pub max_retry_attempts : ℕ
max_retry_attempts = 5

abbrev pub base_retry_delay_ms : ℕ
base_retry_delay_ms = 1000

abbrev pub max_retry_delay_ms : ℕ
max_retry_delay_ms = 60000

-- A draw of `Math.random()`: the fraction `num / (slack + num + 1)`, which is at least 0 and below 1.
pub record Draw : Type 0 where
  pub num : ℕ
  pub slack : ℕ

abbrev pub den : Draw → ℕ
den d = d.slack + d.num + 1

-- With attempt 0 the delay `baseDelay * 2 ** -1` may end in a half, so twice the delay is held, and what
-- `Math.floor` cuts off is cut off by the divisions.
unfoldable pub calculate_backoff : Draw → ℕ → ℕ → ℕ → ℕ
calculate_backoff random attempt base_delay max_delay =
    let twice = min (base_delay * 2 ^ attempt) (2 * max_delay) in
    (twice + 3 * (random.num * twice) / (10 * den random)) / 2

-- The error of a call of `fn`, with the answer of `shouldRetry` on it (true where none is given).
pub record Failure (E : Type 0) : Type 0 where
  pub error : E
  pub retryable : Bool

pub data Attempt (A E : Type 0) : Type 0 where
  returned : A → Attempt A E
  threw : Failure E → Attempt A E

-- How the promise settles: `rejected none` is a rejection with `undefined`.
pub data Settled (A E : Type 0) : Type 0 where
  resolved : A → Settled A E
  rejected : Option E → Settled A E

-- The settled promise, the number of calls of `fn`, and the attempts that were followed by a sleep.
pub record Retried (A E : Type 0) : Type 0 where
  pub outcome : Settled A E
  pub calls : ℕ
  pub slept : List ℕ

-- The `for` loop: the list of what the calls of `fn` from `attempt` to the last allowed one would
-- do; it ends where `attempt > maxAttempts`. `last_error` is `lastError`.
module _ {A E : Type 0} where
  unfoldable pub retry_loop : List (Attempt A E) → ℕ → Option E → List ℕ → Retried A E
  retry_loop [] attempt last_error slept = record {
    outcome = rejected last_error;
    calls = attempt - 1;
    slept = slept;
  }
  retry_loop (returned a ∷ more) attempt last_error slept = record {
    outcome = resolved a;
    calls = attempt;
    slept = slept;
  }
  retry_loop (threw f ∷ []) attempt last_error slept = record {
    outcome = rejected (some f.error);
    calls = attempt;
    slept = slept;
  }
  retry_loop (threw f ∷ r ∷ more) attempt last_error slept =
      let rest = retry_loop (r ∷ more) (attempt + 1) (some f.error) (slept ++ attempt ∷ []) in
      if not f.retryable
      then record { outcome = rejected (some f.error); calls = attempt; slept = slept }
      else rest

  -- `fn k` is what the k-th call of the function does.
  unfoldable pub attempts_from : (ℕ → Attempt A E) → ℕ → ℕ → List (Attempt A E)
  attempts_from fn k zero = []
  attempts_from fn k (suc n) = fn k ∷ attempts_from fn (k + 1) n

  unfoldable pub retry_with_backoff : (ℕ → Attempt A E) → ℕ → Retried A E
  unfolding retry_loop attempts_from
  retry_with_backoff fn max_attempts = retry_loop (attempts_from fn 1 max_attempts) 1 none []
