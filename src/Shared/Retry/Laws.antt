-- ===== src/Shared/Retry/Laws.antt =====
-- Bounds of the backoff delay, and what the retry loop does with every sequence of outcomes.
use native.Mathlib.Nat.{div-mul-le_self, le-div_iff_mul-le, le_of_mul-le-mul_left}
use ops_mesh.Base.{
  ℕ, zero, suc, ◌+◌, ◌*◌, ◌/◌, ◌^◌, ◌≤◌, ◌<◌, ◌≡◌, refl, sym, ◌∙◌, ◌⊎◌, inl, inr, true, false,
  Option, none, some, List, [], ◌∷◌, ◌++◌, min, ltb, length, length-append, get_elem?, take, arith,
  Bool-cases, All, ap, lt_of_get_elem?, All-take-get_elem?,
}
use ops_mesh.Shared.Retry.{
  Draw, calculate_backoff, Failure, Attempt, returned, threw, Settled, resolved, rejected, Retried,
  retry_loop, attempts_from, retry_with_backoff,
}

jitter_scaled :
    (num slack delay : ℕ)
    → (slack + num + 1) * (3 * (num * delay) / (10 * (slack + num + 1)) * 10)
      ≤ (slack + num + 1) * (3 * delay)
jitter_scaled num slack delay =
    omega (arith, div-mul-le_self (3 * (num * delay)) (10 * (slack + num + 1)))

jitter_le : (num slack delay : ℕ) → 3 * (num * delay) / (10 * (slack + num + 1)) * 10 ≤ 3 * delay
jitter_le num slack delay = le_of_mul-le-mul_left (jitter_scaled num slack delay) (omega arith)

jitter_ge :
    (num slack max : ℕ)
    → 10 * (slack + num + 1) ≤ 3 * (num * max)
    → 2 ≤ 3 * (num * (2 * max)) / (10 * (slack + num + 1))
jitter_ge num slack max h =
    let doubled : num * (2 * max) ≡ 2 * (num * max) = omega arith in
    (le-div_iff_mul-le (omega arith)).1 (omega (arith, h, doubled))

over_max :
    (num slack max full : ℕ)
    → (full < 2 * max)
      ⊎ (3 * (num * max) < 10 * (slack + num + 1))
      ⊎ (max < (min full (2 * max) + 3 * (num * min full (2 * max)) / (10 * (slack + num + 1))) / 2)
over_max num slack max full = elim (Bool-cases (ltb full (2 * max))) [
  | inl small ↦ inl (ground (arith, small))
  | inr large ↦ elim (Bool-cases (ltb (3 * (num * max)) (10 * (slack + num + 1)))) [
    | inl low ↦ inr (inl (ground (arith, low)))
    | inr high ↦
        let enough : 10 * (slack + num + 1) ≤ 3 * (num * max) = ground (arith, high) in
        let reached : 2 * max ≤ full = ground (arith, large) in
        let capped : min full (2 * max) ≡ 2 * max = omega (arith, reached) in
        let more = jitter_ge num slack max enough in inr (inr (rw capped (omega (arith, more))))
  ]
]

-- For every draw of the random number, and every attempt from 0 on, the delay is at least the exponential
-- delay capped at the maximum (half a base delay at attempt 0, rounded down), at most 30 per cent above
-- it, and so at most 1.3 times the maximum. It exceeds the maximum itself whenever the exponential delay
-- reaches the maximum and the jitter of the draw is at least a millisecond.
pub calculate_backoff_bounds :
    (random : Draw) (attempt base_delay max_delay : ℕ)
    → let delay = calculate_backoff random attempt base_delay max_delay in
      let twice = min (base_delay * 2 ^ attempt) (2 * max_delay) in
      (twice / 2 ≤ delay)
      × (20 * delay ≤ 13 * twice)
      × (10 * delay ≤ 13 * max_delay)
      × ((base_delay * 2 ^ attempt < 2 * max_delay)
          ⊎ (3 * (random.num * max_delay) < 10 * (random.slack + random.num + 1))
          ⊎ (max_delay < delay))
unfolding calculate_backoff
calculate_backoff_bounds random attempt base_delay max_delay =
    let twice = min (base_delay * 2 ^ attempt) (2 * max_delay) in
    let jitter = jitter_le random.num random.slack twice in
    (
      omega arith,
      omega (arith, jitter),
      omega (arith, jitter),
      over_max random.num random.slack max_delay (base_delay * 2 ^ attempt),
    )

module _ {A E : Type 0} where
  abbrev pub settle : Attempt A E → Settled A E
  settle (returned a) = resolved a
  settle (threw f) = rejected (some f.error)

  abbrev pub IsRetryable : Attempt A E → Type 0
  IsRetryable r = (f : Failure E) × (r ≡ threw f) × (f.retryable ≡ true)

  -- A success, or an error that `shouldRetry` turns down.
  abbrev pub IsDecisive : Attempt A E → Type 0
  IsDecisive (returned a) = Unit
  IsDecisive (threw f) = f.retryable ≡ false

  -- The loop over a list of outcomes stopped at its k-th.
  record StopsAt (l : List (Attempt A E)) (n slept : ℕ) (out : Retried A E) (k : ℕ)
      (x : Attempt A E) : Type 0 where
    chosen : get_elem? l k ≡ some x
    calls : out.calls ≡ n + k
    outcome : out.outcome ≡ settle x
    retried : All IsRetryable (take k l)
    ended : (suc k ≡ length l) ⊎ IsDecisive x
    sleeps : length out.slept ≡ slept + k

  retry_loop_lem :
      (l : List (Attempt A E)) (n : ℕ) (e : Option E) (slept : List ℕ)
      → 0 < length l
      → (k : ℕ) × (x : Attempt A E) × StopsAt l n (length slept) (retry_loop l n e slept) k x
  unfolding retry_loop
  retry_loop_lem [] n e slept h = absurd (omega arith)
  retry_loop_lem (returned a ∷ more) n e slept h = (
    0,
    returned a,
    record {
      chosen = refl;
      calls = omega arith;
      outcome = refl;
      retried = tt;
      ended = inr tt;
      sleeps = omega arith;
    },
  )
  retry_loop_lem (threw f ∷ []) n e slept h = (
    0,
    threw f,
    record {
      chosen = refl;
      calls = omega arith;
      outcome = refl;
      retried = tt;
      ended = inl refl;
      sleeps = omega arith;
    },
  )
  retry_loop_lem (threw f ∷ r ∷ more) n e slept h = elim (Bool-cases f.retryable) [
    | inr stop ↦ (
      0,
      threw f,
      record {
        chosen = refl;
        calls = rw stop (omega arith);
        outcome = rw stop refl;
        retried = tt;
        ended = inr stop;
        sleeps = rw stop (omega arith);
      },
    )
    | inl go ↦
        let (k, x, ih) =
          retry_loop_lem (r ∷ more) (n + 1) (some f.error) (slept ++ n ∷ []) (omega arith) in
        (
          suc k,
          x,
          record {
            chosen = ih.chosen;
            calls = rw go (omega (arith, ih.calls));
            outcome = rw go ih.outcome;
            retried = ((f, refl, go), ih.retried);
            ended = ground (arith, ih.ended);
            sleeps = rw go (omega (arith, ih.sleeps, length-append {0} slept (n ∷ [])));
          },
        )
  ]

  get_elem?-attempts_from :
      (fn : ℕ → Attempt A E) (i m k : ℕ)
      → k < m
      → get_elem? (attempts_from fn i m) k ≡ some (fn (i + k))
  unfolding attempts_from
  get_elem?-attempts_from fn i zero k h = elim h [ ]
  get_elem?-attempts_from fn i (suc m) zero h = let e : i + 0 ≡ i = omega arith in rw e refl
  get_elem?-attempts_from fn i (suc m) (suc k) h =
      let e : i + 1 + k ≡ i + suc k = omega arith in
      get_elem?-attempts_from fn (i + 1) m k (omega arith) ∙ ap (λ j. some (fn j)) e

  length-attempts_from : (fn : ℕ → Attempt A E) (i m : ℕ) → length (attempts_from fn i m) ≡ m
  unfolding attempts_from
  length-attempts_from fn i zero = refl
  length-attempts_from fn i (suc m) = omega (arith, length-attempts_from fn (i + 1) m)

  -- With at least one attempt allowed, the retry loop ends at some call k + 1 of the function: it
  -- made exactly k + 1 calls and slept k times, every earlier call threw an error that may be
  -- retried, the promise settles as that call did, and the loop stopped there because the call was
  -- the last one allowed, or succeeded, or threw an error that must not be retried.
  pub retry_with_backoff_lem :
      (fn : ℕ → Attempt A E) (max_attempts : ℕ)
      → 0 < max_attempts
      → let out = retry_with_backoff fn max_attempts in
        (k : ℕ) × (k < max_attempts)
        × (out.calls ≡ suc k)
        × (length out.slept ≡ k)
        × (out.outcome ≡ settle (fn (suc k)))
        × ((j : ℕ) → j < k → IsRetryable (fn (suc j)))
        × ((suc k ≡ max_attempts) ⊎ IsDecisive (fn (suc k)))
  unfolding retry_with_backoff
  retry_with_backoff_lem fn max_attempts pos =
      let l = attempts_from fn 1 max_attempts in
      let len = length-attempts_from fn 1 max_attempts in
      let (k, x, s) = retry_loop_lem l 1 none [] (omega (arith, len)) in
      let lt : k < max_attempts = omega (arith, len, lt_of_get_elem? l k x s.chosen) in
      let here : some (fn (suc k)) ≡ some x = sym (at k lt) ∙ s.chosen in
      (
        k,
        lt,
        omega (arith, s.calls),
        omega (arith, s.sleeps),
        ground (arith, s.outcome, here),
        (λ j h. All-take-get_elem? IsRetryable l k j (fn (suc j)) s.retried h (at j (omega arith))),
        ground (arith, s.ended, here, len),
      )
    where
      at :
          (j : ℕ)
          → j < max_attempts
          → get_elem? (attempts_from fn 1 max_attempts) j ≡ some (fn (suc j))
      at j h =
          let e : 1 + j ≡ suc j = omega arith in
          get_elem?-attempts_from fn 1 max_attempts j h ∙ ap (λ i. some (fn i)) e
