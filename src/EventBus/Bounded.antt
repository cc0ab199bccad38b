-- ===== src/EventBus/Bounded.antt =====
-- The invariant of the in-memory bus: no message waits that has used up its attempts.
use ops_mesh.Base.{
  ℕ, zero, suc, ◌+◌, ◌%◌, ◌≤◌, ◌≡◌, refl, sym, ◌∙◌, ap, subst, inl, inr, max, true, false, not,
  Option, none, some, List, [], ◌∷◌, String, filter, length, get_elem?, update_at, All, All-append,
  All-filter, leb, nat_eq, nat_beq, if◌then◌else◌, arith, Bool-cases,
}
use ops_mesh.EventBus.{
  Subject, PublishedMessage, PendingMessage, Publication, Handled, MemoryConsumer, MemoryEventBus,
  serves, enqueue, push_to, publish, publish_all, consume, is_due, later_only, retried, on_failure,
  run_items, tick_consumer, tick_from, tick,
}

module _ {P W : Type 0} where
  -- Every waiting message has been tried less often than its consumer allows, and the number of
  -- attempts that it carries is the number that were made.
  abbrev pub IsWithin : MemoryConsumer P W → PendingMessage P → Type 0
  IsWithin c p = (p.attempts + 1 ≤ max 1 c.max_retries) × (p.message.attempts ≡ p.attempts)

  abbrev pub IsBounded : MemoryEventBus P W → Type 0
  IsBounded bus = All (λ c. All (IsWithin c) c.pending) bus.consumers

  abbrev HasItems : MemoryConsumer P W → Type 0
  HasItems c = All (IsWithin c) c.pending

  push_to-bounded :
      (subject : Subject) (k : ℕ) (item : PendingMessage P) (cs : List (MemoryConsumer P W))
      → item.attempts ≡ 0
      → item.message.attempts ≡ 0
      → All HasItems cs
      → All HasItems (push_to subject k item cs)
  unfolding push_to
  push_to-bounded subject k item [] a m h = tt
  push_to-bounded subject zero item (c ∷ cs) a m (h, hs) =
      let more : HasItems (enqueue item c) =
        All-append (IsWithin c) c.pending (item ∷ []) h ((omega arith, m ∙ sym a), tt) in
      elim (Bool-cases (serves subject c)) [
        | inl e ↦ rw e (more, hs)
        | inr e ↦ rw e (h, push_to-bounded subject zero item cs a m hs)
      ]
  push_to-bounded subject (suc k) item (c ∷ cs) a m (h, hs) =
      (h, push_to-bounded subject (if serves subject c then k else suc k) item cs a m hs)

  -- What a consumer was registered with; no operation changes it.
  abbrev limit_at : List (MemoryConsumer P W) → ℕ → Option ℕ
  limit_at [] i = none
  limit_at (c ∷ cs) zero = some c.max_retries
  limit_at (c ∷ cs) (suc i) = limit_at cs i

  push_to-limit :
      (subject : Subject) (k i : ℕ) (item : PendingMessage P) (cs : List (MemoryConsumer P W))
      → limit_at (push_to subject k item cs) i ≡ limit_at cs i
  unfolding push_to
  push_to-limit subject k i item [] = refl
  push_to-limit subject zero zero item (c ∷ cs) = ground arith
  push_to-limit subject zero (suc i) item (c ∷ cs) =
      ground (arith, push_to-limit subject zero i item cs)
  push_to-limit subject (suc k) zero item (c ∷ cs) = refl
  push_to-limit subject (suc k) (suc i) item (c ∷ cs) =
      push_to-limit subject (if serves subject c then k else suc k) i item cs

  update_at-limit :
      (j i : ℕ) (f : MemoryConsumer P W → MemoryConsumer P W) (cs : List (MemoryConsumer P W))
      → ((c : MemoryConsumer P W) → (f c).max_retries ≡ c.max_retries)
      → limit_at (update_at j f cs) i ≡ limit_at cs i
  update_at-limit j i f [] keep = refl
  update_at-limit zero zero f (c ∷ cs) keep = rw (keep c)
  update_at-limit zero (suc i) f (c ∷ cs) keep = refl
  update_at-limit (suc j) zero f (c ∷ cs) keep = refl
  update_at-limit (suc j) (suc i) f (c ∷ cs) keep = update_at-limit j i f cs keep

  update_at-bounded :
      (i m : ℕ) (f : MemoryConsumer P W → MemoryConsumer P W) (cs : List (MemoryConsumer P W))
      → limit_at cs i ≡ some m
      → ((c : MemoryConsumer P W) → c.max_retries ≡ m → HasItems c → HasItems (f c))
      → All HasItems cs
      → All HasItems (update_at i f cs)
  update_at-bounded i m f [] e keep h = tt
  update_at-bounded zero m f (c ∷ cs) e keep (h, hs) = (keep c (ground arith) h, hs)
  update_at-bounded (suc i) m f (c ∷ cs) e keep (h, hs) = (h, update_at-bounded i m f cs e keep hs)

  publish-IsBounded :
      (bus : MemoryEventBus P W) (type : String) (payload : P) (subject : Subject) (now i : ℕ)
      → (IsBounded bus → IsBounded (publish bus type payload subject now))
        × (limit_at (publish bus type payload subject now).consumers i ≡ limit_at bus.consumers i)
  unfolding publish
  publish-IsBounded bus type payload subject now i =
      let size = length (filter (serves subject) bus.consumers) in
      let item : PendingMessage P = record {
        message = record { type = type; payload = payload; attempts = 0; published_at = now };
        retry_at = 0;
        attempts = 0;
      } in
      elim (Bool-cases (nat_beq size 0)) [
        | inl e ↦ rw e (λ h. h, refl)
        | inr e ↦ rw e (
          λ h. push_to-bounded subject (bus.rr_counter % size) item bus.consumers refl refl h,
          push_to-limit subject (bus.rr_counter % size) i item bus.consumers,
        )
      ]

  publish_all-IsBounded :
      (bus : MemoryEventBus P W) (ps : List (Publication P)) (now i : ℕ)
      → (IsBounded bus → IsBounded (publish_all bus ps now))
        × (limit_at (publish_all bus ps now).consumers i ≡ limit_at bus.consumers i)
  unfolding publish_all
  publish_all-IsBounded bus [] now i = (λ h. h, refl)
  publish_all-IsBounded bus (p ∷ ps) now i =
      let (here, limit) = publish-IsBounded bus p.type p.payload p.subject now i in
      let (there, limits) =
        publish_all-IsBounded (publish bus p.type p.payload p.subject now) ps now i in
      (λ h. there (here h), limits ∙ limit)

  on_failure-IsBounded :
      (c : MemoryConsumer P W) (i now j : ℕ) (item : PendingMessage P) (bus : MemoryEventBus P W)
      → (limit_at bus.consumers i ≡ some c.max_retries
          → IsBounded bus
          → IsBounded (on_failure c i now item bus))
        × (limit_at (on_failure c i now item bus).consumers j ≡ limit_at bus.consumers j)
  unfolding on_failure
  on_failure-IsBounded c i now j item bus =
      elim (Bool-cases (leb c.max_retries (item.attempts + 1))) [
        | inl e ↦ rw e (λ l h. h, refl)
        | inr e ↦ rw e (
          λ l h.
              update_at-bounded i c.max_retries (enqueue (retried c now item)) bus.consumers l
                (λ d same ok.
                  All-append (IsWithin d) d.pending (retried c now item ∷ []) ok
                    ((ground arith, refl), tt))
                h,
          update_at-limit i j (enqueue (retried c now item)) bus.consumers (λ d. refl),
        )
      ]

  after_return :
      (c : MemoryConsumer P W) (i now : ℕ) (item : PendingMessage P)
      (rest : List (PendingMessage P)) (bus : MemoryEventBus P W) (w : W)
      → (c.handler w item.message).returned ≡ true
      → run_items c i now (item ∷ rest) bus w
        ≡ run_items c i now rest
            (publish_all bus (c.handler w item.message).published now)
            (c.handler w item.message).world
  unfolding run_items
  after_return c i now item rest bus w e =
      ap
        (λ b.
          run_items c i now rest
            (if b
              then publish_all bus (c.handler w item.message).published now
              else on_failure c i now item
                  (publish_all bus (c.handler w item.message).published now))
            (c.handler w item.message).world)
        e

  after_throw :
      (c : MemoryConsumer P W) (i now : ℕ) (item : PendingMessage P)
      (rest : List (PendingMessage P)) (bus : MemoryEventBus P W) (w : W)
      → (c.handler w item.message).returned ≡ false
      → run_items c i now (item ∷ rest) bus w
        ≡ run_items c i now rest
            (on_failure c i now item (publish_all bus (c.handler w item.message).published now))
            (c.handler w item.message).world
  unfolding run_items
  after_throw c i now item rest bus w e =
      ap
        (λ b.
          run_items c i now rest
            (if b
              then publish_all bus (c.handler w item.message).published now
              else on_failure c i now item
                  (publish_all bus (c.handler w item.message).published now))
            (c.handler w item.message).world)
        e

  run_items-IsBounded :
      (c : MemoryConsumer P W) (i now : ℕ) (items : List (PendingMessage P))
      (bus : MemoryEventBus P W) (w : W)
      → limit_at bus.consumers i ≡ some c.max_retries
      → IsBounded bus
      → IsBounded (run_items c i now items bus w).0
  unfolding run_items
  run_items-IsBounded c i now [] bus w l h = h
  run_items-IsBounded c i now (item ∷ rest) bus w l h =
      let out = c.handler w item.message in
      let bus' = publish_all bus out.published now in
      let (kept, same) = publish_all-IsBounded bus out.published now i in
      elim (Bool-cases out.returned) [
        | inl e ↦
            subst (λ p. IsBounded p.0) (sym (after_return c i now item rest bus w e))
              (run_items-IsBounded c i now rest bus' out.world (same ∙ l) (kept h))
        | inr e ↦
            let (keep, limit) = on_failure-IsBounded c i now i item bus' in
            subst (λ p. IsBounded p.0) (sym (after_throw c i now item rest bus w e))
              (run_items-IsBounded c i now rest (on_failure c i now item bus') out.world
                (limit ∙ same ∙ l) (keep (same ∙ l) (kept h)))
      ]

  later_only-bounded :
      (now i : ℕ) (cs : List (MemoryConsumer P W))
      → All HasItems cs
      → All HasItems (update_at i (later_only now) cs)
  later_only-bounded now i [] h = tt
  later_only-bounded now zero (c ∷ cs) (h, hs) =
      (All-filter (IsWithin c) (λ p. not (leb p.retry_at now)) c.pending h, hs)
  later_only-bounded now (suc i) (c ∷ cs) (h, hs) = (h, later_only-bounded now i cs hs)

  limit_of_get_elem? :
      (cs : List (MemoryConsumer P W)) (i : ℕ) (c : MemoryConsumer P W)
      → get_elem? cs i ≡ some c
      → limit_at cs i ≡ some c.max_retries
  limit_of_get_elem? [] i c e = absurd (ground arith)
  limit_of_get_elem? (d ∷ cs) zero c e = ground arith
  limit_of_get_elem? (d ∷ cs) (suc i) c e = limit_of_get_elem? cs i c e

  tick_consumer-IsBounded :
      (o : Option (MemoryConsumer P W)) (i now : ℕ) (bus : MemoryEventBus P W) (w : W)
      → get_elem? bus.consumers i ≡ o
      → IsBounded bus
      → IsBounded (tick_consumer o i now bus w).0
  unfolding tick_consumer
  tick_consumer-IsBounded none i now bus w e h = h
  tick_consumer-IsBounded (some c) i now bus w e h =
      run_items-IsBounded c i now (filter (is_due now) c.pending)
        (record bus { consumers = update_at i (later_only now) bus.consumers }) w
        (update_at-limit i i (later_only now) bus.consumers (λ d. refl)
          ∙ limit_of_get_elem? bus.consumers i c e)
        (later_only-bounded now i bus.consumers h)

  tick_from-IsBounded :
      (left i now : ℕ) (bus : MemoryEventBus P W) (w : W)
      → IsBounded bus
      → IsBounded (tick_from left i now bus w).0
  unfolding tick_from
  tick_from-IsBounded zero i now bus w h = h
  tick_from-IsBounded (suc left) i now bus w h =
      let (bus', w') = tick_consumer (get_elem? bus.consumers i) i now bus w in
      tick_from-IsBounded left (i + 1) now bus' w'
        (tick_consumer-IsBounded (get_elem? bus.consumers i) i now bus w refl h)

  -- Whatever the handlers do and publish, a round of the loop leaves no waiting message that was
  -- tried as often as its consumer allows, and every waiting message carries its number of attempts;
  -- a publication and the registration of a consumer keep this too.
  pub tick-IsBounded :
      (bus : MemoryEventBus P W) (w : W) (now : ℕ) (type : String) (payload : P) (subject : Subject)
      (limit base : ℕ) (handler : W → PublishedMessage P → Handled P W)
      → IsBounded bus
      → IsBounded (tick now bus w).0
        × IsBounded (publish bus type payload subject now)
        × IsBounded (consume bus subject limit base handler)
  unfolding tick consume
  tick-IsBounded bus w now type payload subject limit base handler h = (
    tick_from-IsBounded (length bus.consumers) 0 now bus w h,
    (publish-IsBounded bus type payload subject now 0).0 h,
    All-append HasItems bus.consumers _ h (tt, tt),
  )
