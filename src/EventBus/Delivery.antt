-- ===== src/EventBus/Delivery.antt =====
-- Delivery on the in-memory bus: one consumer per message, a bounded number of attempts, and dead
-- letters at the end of them.
use ops_mesh.Base.{
  ℕ, zero, suc, ◌+◌, ◌%◌, ◌<◌, ◌≡◌, refl, inl, inr, false, List, [], ◌∷◌, String, filter, length,
  length-append, nat_eq, nat_beq, if◌then◌else◌, arith, Bool-cases,
}
use native.Mathlib.Nat.{mod-lt}
use ops_mesh.EventBus.{
  Subject, PendingMessage, MemoryConsumer, MemoryEventBus, serves, push_to, publish, total_pending,
  pending_count,
}

module _ {P W : Type 0} where
  -- Pending messages per consumer, as seen by a subject: the others are counted as they were.
  push_to_total :
      (subject : Subject) (k : ℕ) (item : PendingMessage P) (cs : List (MemoryConsumer P W))
      → k < length (filter (serves subject) cs)
      → total_pending (push_to subject k item cs) ≡ total_pending cs + 1
  unfolding push_to
  push_to_total subject k item [] h = elim h [ ]
  push_to_total subject zero item (c ∷ cs) h =
      ground (arith, push_to_total subject zero item cs, length-append {0} c.pending (item ∷ []))
  push_to_total subject (suc k) item (c ∷ cs) h =
      ground (arith, push_to_total subject k item cs, push_to_total subject (suc k) item cs)

  -- Every consumer of another subject is as it was.
  abbrev pub SameElsewhere :
      Subject → List (MemoryConsumer P W) → List (MemoryConsumer P W) → Type 0
  SameElsewhere subject [] [] = Unit
  SameElsewhere subject [] (d ∷ ds) = ⊥
  SameElsewhere subject (c ∷ cs) [] = ⊥
  SameElsewhere subject (c ∷ cs) (d ∷ ds) =
      (serves subject c ≡ false → d ≡ c) × SameElsewhere subject cs ds

  SameElsewhere-refl :
      (subject : Subject) (cs : List (MemoryConsumer P W)) → SameElsewhere subject cs cs
  SameElsewhere-refl subject [] = tt
  SameElsewhere-refl subject (c ∷ cs) = (λ _. refl, SameElsewhere-refl subject cs)

  push_to-SameElsewhere :
      (subject : Subject) (k : ℕ) (item : PendingMessage P) (cs : List (MemoryConsumer P W))
      → SameElsewhere subject cs (push_to subject k item cs)
  unfolding push_to
  push_to-SameElsewhere subject k item [] = tt
  push_to-SameElsewhere subject zero item (c ∷ cs) = elim (Bool-cases (serves subject c)) [
    | inl e ↦ rw e (λ h. cc, SameElsewhere-refl subject cs)
    | inr e ↦ rw e (λ h. refl, push_to-SameElsewhere subject zero item cs)
  ]
  push_to-SameElsewhere subject (suc k) item (c ∷ cs) =
      (λ h. refl, push_to-SameElsewhere subject (if serves subject c then k else suc k) item cs)

  -- A publication reaches exactly one consumer of its subject, if there is one: the number of pending
  -- messages grows by one, and no queue of another subject changes. Without a consumer of the subject
  -- the bus is as it was, and the message is dropped.
  pub publish_once :
      (bus : MemoryEventBus P W) (type : String) (payload : P) (subject : Subject) (now : ℕ)
      → let bus' = publish bus type payload subject now in
        (0 < length (filter (serves subject) bus.consumers)
          → (pending_count bus' ≡ pending_count bus + 1)
            × SameElsewhere subject bus.consumers bus'.consumers
            × (bus'.dead_letters ≡ bus.dead_letters))
        × (length (filter (serves subject) bus.consumers) ≡ 0 → bus' ≡ bus)
  unfolding publish pending_count
  publish_once bus type payload subject now =
      let size = length (filter (serves subject) bus.consumers) in
      let item : PendingMessage P = record {
        message = record { type = type; payload = payload; attempts = 0; published_at = now };
        retry_at = 0;
        attempts = 0;
      } in
      (
        λ pos.
            let busy : nat_beq size 0 ≡ false = ground arith in
            rw busy (
              push_to_total subject (bus.rr_counter % size) item bus.consumers
                  (mod-lt bus.rr_counter pos),
              push_to-SameElsewhere subject (bus.rr_counter % size) item bus.consumers,
              refl,
            ),
        λ idle. ground arith,
      )

  -- A publication on a subject with a consumer reaches exactly one of its consumers: the number of
  -- pending messages grows by one, no queue of another subject changes, and nothing is dead-lettered.
  pub publish_reaches :
      (bus : MemoryEventBus P W) (type : String) (payload : P) (subject : Subject) (now : ℕ)
      → 0 < length (filter (serves subject) bus.consumers)
      → let bus' = publish bus type payload subject now in
        (pending_count bus' ≡ pending_count bus + 1)
        × SameElsewhere subject bus.consumers bus'.consumers
        × (bus'.dead_letters ≡ bus.dead_letters)
  publish_reaches bus type payload subject now some_consumer =
      (publish_once bus type payload subject now).0 some_consumer
