-- ===== src/EventBus/Exhaust.antt =====
-- The life of a message whose handler always throws, and the one of a message that is handled.
use ops_mesh.Base.{
  ℕ, ◌+◌, ◌-◌, ◌≤◌, ◌<◌, ◌≡◌, refl, ◌∙◌, ap, true, false, List, [], ◌∷◌, ◌++◌, length, leb,
  if◌then◌else◌, arith,
}
use ops_mesh.EventBus.{
  PublishedMessage, PendingMessage, MemoryConsumer, MemoryEventBus, retry_delay, retried, tick,
}

-- Times that leave the longest delay between two rounds.
abbrev pub IsSpaced : ℕ → List ℕ → Type 0
IsSpaced at [] = Unit
IsSpaced at (now ∷ later) = (at ≤ now) × IsSpaced (now + 60000) later

IsSpaced-earlier : (a b : ℕ) (times : List ℕ) → a ≤ b → IsSpaced b times → IsSpaced a times
IsSpaced-earlier a b [] h s = tt
IsSpaced-earlier a b (now ∷ later) h (s, ss) = (omega arith, ss)

module _ {P W : Type 0} where
  -- Rounds of the consumer's loop at the given times.
  unfoldable pub ticks : List ℕ → MemoryEventBus P W → W → MemoryEventBus P W × W
  ticks [] bus w = (bus, w)
  ticks (now ∷ later) bus w = let (bus', w') = tick now bus w in ticks later bus' w'

  abbrev pub AlwaysThrows : MemoryConsumer P W → Type 0
  AlwaysThrows c =
      (w : W) (m : PublishedMessage P)
      → ((c.handler w m).returned ≡ false) × ((c.handler w m).published ≡ [])

  -- A bus with one consumer and the given queue.
  abbrev pub single :
      MemoryConsumer P W
      → List (PendingMessage P)
      → List (PublishedMessage P)
      → ℕ
      → MemoryEventBus P W
  single c queue dead rr = record {
    consumers = record c { pending = queue } ∷ [];
    dead_letters = dead;
    rr_counter = rr;
  }

  tick_throw :
      (c : MemoryConsumer P W) (item : PendingMessage P) (dead : List (PublishedMessage P))
      (rr now : ℕ) (w : W)
      → AlwaysThrows c
      → item.retry_at ≤ now
      → (tick now (single c (item ∷ []) dead rr) w).0 ≡ (
          if leb c.max_retries (item.attempts + 1)
          then single c [] (dead ++ item.message ∷ []) rr
          else single c (retried c now item ∷ []) dead rr)
  unfolding tick retried
  tick_throw c item dead rr now w throws due =
      let (thrown, silent) = throws w item.message in ground (arith, thrown, silent)

  retried-IsSpaced :
      (c : MemoryConsumer P W) (item : PendingMessage P) (now : ℕ) (later : List ℕ)
      → IsSpaced (now + 60000) later
      → IsSpaced (retried c now item).retry_at later
  unfolding retried retry_delay
  retried-IsSpaced c item now later s = IsSpaced-earlier _ (now + 60000) later (omega arith) s

  still_waiting :
      (c : MemoryConsumer P W) (item : PendingMessage P) (dead : List (PublishedMessage P)) (rr : ℕ)
      (times : List ℕ) (w : W)
      → AlwaysThrows c
      → item.attempts + length times < c.max_retries
      → IsSpaced item.retry_at times
      → (item' : PendingMessage P) × ((ticks times (single c (item ∷ []) dead rr) w).0
          ≡ single c (item' ∷ []) dead rr)
        × (item'.attempts ≡ item.attempts + length times)
  unfolding ticks retried
  still_waiting c item dead rr [] w throws h s = (item, refl, omega arith)
  still_waiting c item dead rr (now ∷ later) w throws h (due, s) =
      let step = tick_throw c item dead rr now w throws due in
      let w1 = (tick now (single c (item ∷ []) dead rr) w).1 in
      let more : (tick now (single c (item ∷ []) dead rr) w).0
          ≡ single c (retried c now item ∷ []) dead rr =
        ground (arith, step) in
      let (item', same, count) =
        still_waiting c (retried c now item) dead rr later
          (tick now (single c (item ∷ []) dead rr) w).1 throws (omega arith)
          (retried-IsSpaced c item now later s) in
      (item', ap (λ b. (ticks later b w1).0) more ∙ same, omega (arith, count))

  exhausted :
      (c : MemoryConsumer P W) (item : PendingMessage P) (dead : List (PublishedMessage P)) (rr : ℕ)
      (times : List ℕ) (w : W)
      → AlwaysThrows c
      → item.attempts + length times ≡ c.max_retries
      → 0 < length times
      → item.message.attempts ≡ item.attempts
      → IsSpaced item.retry_at times
      → (ticks times (single c (item ∷ []) dead rr) w).0
        ≡ single c [] (dead ++ record item.message { attempts = c.max_retries - 1 } ∷ []) rr
  unfolding ticks retried
  exhausted c item dead rr [] w throws h pos m s = absurd (omega arith)
  exhausted c item dead rr (now ∷ []) w throws h pos m (due, s) =
      let step = tick_throw c item dead rr now w throws due in
      let last : leb c.max_retries (item.attempts + 1) ≡ true = ground arith in
      let count : c.max_retries - 1 ≡ item.message.attempts = omega arith in
      rw (step, last, count) refl
  exhausted c item dead rr (now ∷ next ∷ later) w throws h pos m (due, s) =
      let step = tick_throw c item dead rr now w throws due in
      let w1 = (tick now (single c (item ∷ []) dead rr) w).1 in
      let more : (tick now (single c (item ∷ []) dead rr) w).0
          ≡ single c (retried c now item ∷ []) dead rr =
        ground (arith, step) in
      ap (λ b. (ticks (next ∷ later) b w1).0) more
      ∙ (exhausted c (retried c now item) dead rr (next ∷ later)
          (tick now (single c (item ∷ []) dead rr) w).1 throws (omega arith) (omega arith) refl
          (retried-IsSpaced c item now (next ∷ later) s))

  -- A fresh message whose handler always throws is tried exactly `max_retries` times: rounds that are
  -- at least a minute apart leave it waiting as long as they are fewer, and after `max_retries` of
  -- them it is the last dead letter and nothing waits. It then carries `max_retries - 1` attempts.
  pub dead_letter_after :
      (c : MemoryConsumer P W) (message : PublishedMessage P) (dead : List (PublishedMessage P))
      (rr : ℕ) (times : List ℕ) (w : W)
      → AlwaysThrows c
      → message.attempts ≡ 0
      → IsSpaced 0 times
      → let item : PendingMessage P = record { message = message; retry_at = 0; attempts = 0 } in
        (length times < c.max_retries
          → (item' : PendingMessage P) × ((ticks times (single c (item ∷ []) dead rr) w).0
              ≡ single c (item' ∷ []) dead rr)
            × (item'.attempts ≡ length times))
        × (length times ≡ c.max_retries
            → 0 < length times
            → (ticks times (single c (item ∷ []) dead rr) w).0
              ≡ single c [] (dead ++ record message { attempts = c.max_retries - 1 } ∷ []) rr)
  dead_letter_after c message dead rr times w throws fresh s =
      let item : PendingMessage P = record { message = message; retry_at = 0; attempts = 0 } in
      (
        (λ h.
            let (item', same, count) =
              still_waiting c item dead rr times w throws (omega arith) s in
            (item', same, omega (arith, count))),
        (λ h pos. exhausted c item dead rr times w throws (omega arith) pos fresh s),
      )

  -- On a bus with one consumer, whose queue holds a fresh message and nothing else and whose handler
  -- always throws and publishes nothing, the message is a dead letter after exactly `max_retries`
  -- rounds that are at least a minute apart: the queue is empty then, and the message is the last dead
  -- letter, with `max_retries - 1` attempts noted on it.
  pub dead_letter_at_last :
      (c : MemoryConsumer P W) (message : PublishedMessage P) (dead : List (PublishedMessage P))
      (rr : ℕ) (times : List ℕ) (w : W)
      → AlwaysThrows c
      → message.attempts ≡ 0
      → IsSpaced 0 times
      → length times ≡ c.max_retries
      → 0 < length times
      → let item : PendingMessage P = record { message = message; retry_at = 0; attempts = 0 } in
        (ticks times (single c (item ∷ []) dead rr) w).0
        ≡ single c [] (dead ++ record message { attempts = c.max_retries - 1 } ∷ []) rr
  dead_letter_at_last c message dead rr times w throws fresh spaced all some_round =
      (dead_letter_after c message dead rr times w throws fresh spaced).1 all some_round
