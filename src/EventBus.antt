-- ===== src/EventBus.antt =====
-- packages/infra/src/eventbus.ts: the messages, and class MemoryEventBus. The class's timers are
-- left out: a tick of a consumer's loop is a call of `tick` with the time it reads. A handler is a
-- function of the world `W` that answers the new world, whether it returned or threw, and what it
-- published on the bus meanwhile.
pub mod Delivery
pub mod Bounded
pub mod Exhaust
pub mod Rabbit
use ops_mesh.Base.{
  ℕ, zero, suc, ◌+◌, ◌-◌, ◌*◌, ◌%◌, ◌^◌, min, Bool, true, false, not, Option, none, some, List, [],
  ◌∷◌, ◌++◌, String, filter, length, get_elem?, update_at, leb, ltb, ◌==◌, nat_eq, if◌then◌else◌,
}

pub data Subject : Type 0 where
  event realtime : Subject

abbrev pub subject_beq : Subject → Subject → Bool
subject_beq event event = true
subject_beq realtime realtime = true
subject_beq _ _ = false

pub record PublishedMessage (P : Type 0) : Type 0 where
  pub type : String
  pub payload : P
  pub attempts : ℕ
  pub published_at : ℕ

pub record PendingMessage (P : Type 0) : Type 0 where
  pub message : PublishedMessage P
  pub retry_at : ℕ
  pub attempts : ℕ

-- The arguments of a call of `publish`.
pub record Publication (P : Type 0) : Type 0 where
  pub type : String
  pub payload : P
  pub subject : Subject

pub record Handled (P W : Type 0) : Type 0 where
  pub world : W
  pub returned : Bool
  pub published : List (Publication P)

pub record MemoryConsumer (P W : Type 0) : Type 0 where
  pub subject : Subject
  pub max_retries : ℕ
  pub retry_base_ms : ℕ
  pub handler : W → PublishedMessage P → Handled P W
  pub pending : List (PendingMessage P)

pub record MemoryEventBus (P W : Type 0) : Type 0 where
  pub consumers : List (MemoryConsumer P W)
  pub dead_letters : List (PublishedMessage P)
  pub rr_counter : ℕ

unfoldable pub new_bus : (P W : Type 0) → MemoryEventBus P W
new_bus P W = record { consumers = []; dead_letters = []; rr_counter = 0 }

abbrev pub is_due : {P : Type 0} → ℕ → PendingMessage P → Bool
is_due now p = leb p.retry_at now

module _ {P W : Type 0} where
  abbrev pub serves : Subject → MemoryConsumer P W → Bool
  serves subject c = subject_beq c.subject subject

  abbrev pub enqueue : PendingMessage P → MemoryConsumer P W → MemoryConsumer P W
  enqueue item c = record c { pending = c.pending ++ item ∷ [] }

  -- `group[k].pending.push(item)`, where `group` holds the consumers of the subject
  unfoldable pub push_to :
      Subject → ℕ → PendingMessage P → List (MemoryConsumer P W) → List (MemoryConsumer P W)
  push_to subject k item [] = []
  push_to subject zero item (c ∷ cs) =
      if serves subject c then enqueue item c ∷ cs else c ∷ push_to subject zero item cs
  push_to subject (suc k) item (c ∷ cs) =
      c ∷ push_to subject (if serves subject c then k else suc k) item cs

  unfoldable pub publish : MemoryEventBus P W → String → P → Subject → ℕ → MemoryEventBus P W
  unfolding push_to
  publish bus type payload subject now =
      let message : PublishedMessage P = record {
        type = type;
        payload = payload;
        attempts = 0;
        published_at = now;
      } in
      let item : PendingMessage P = record { message = message; retry_at = 0; attempts = 0 } in
      let size = length (filter (serves subject) bus.consumers) in
      if size == 0 then bus else record bus {
        consumers = push_to subject (bus.rr_counter % size) item bus.consumers;
        rr_counter = bus.rr_counter + 1;
      }

  unfoldable pub publish_all : MemoryEventBus P W → List (Publication P) → ℕ → MemoryEventBus P W
  unfolding publish
  publish_all bus [] now = bus
  publish_all bus (p ∷ ps) now = publish_all (publish bus p.type p.payload p.subject now) ps now

  -- `consume`, up to the loop that it starts
  unfoldable pub consume :
      MemoryEventBus P W
      → Subject
      → ℕ
      → ℕ
      → (W → PublishedMessage P → Handled P W)
      → MemoryEventBus P W
  consume bus subject max_retries retry_base_ms handler = record bus {
    consumers =
        bus.consumers
        ++ record {
          subject = subject;
          max_retries = max_retries;
          retry_base_ms = retry_base_ms;
          handler = handler;
          pending = [];
        }
          ∷ [];
  }

  abbrev pub later_only : ℕ → MemoryConsumer P W → MemoryConsumer P W
  later_only now c = record c { pending = filter (λ p. not (leb p.retry_at now)) c.pending }

  unfoldable pub retry_delay : MemoryConsumer P W → ℕ → ℕ
  retry_delay c attempts = min (c.retry_base_ms * 2 ^ (attempts - 1)) 60000

  -- The item as it waits for its next attempt.
  unfoldable pub retried : MemoryConsumer P W → ℕ → PendingMessage P → PendingMessage P
  unfolding retry_delay
  retried c now item =
      let attempts = item.attempts + 1 in
      record {
        message = record item.message { attempts = attempts };
        retry_at = now + retry_delay c attempts;
        attempts = attempts;
      }

  -- The `catch` of a handler that threw on `item` of the consumer at index `i`.
  unfoldable pub on_failure :
      MemoryConsumer P W → ℕ → ℕ → PendingMessage P → MemoryEventBus P W → MemoryEventBus P W
  unfolding retried
  on_failure c i now item bus =
      if leb c.max_retries (item.attempts + 1)
      then record bus { dead_letters = bus.dead_letters ++ item.message ∷ [] }
      else record bus { consumers = update_at i (enqueue (retried c now item)) bus.consumers }

  -- The loop over the due items of one consumer.
  unfoldable pub run_items :
      MemoryConsumer P W
      → ℕ
      → ℕ
      → List (PendingMessage P)
      → MemoryEventBus P W
      → W
      → MemoryEventBus P W × W
  unfolding on_failure publish_all
  run_items c i now [] bus w = (bus, w)
  run_items c i now (item ∷ rest) bus w =
      let out = c.handler w item.message in
      let bus' = publish_all bus out.published now in
      run_items c i now rest (if out.returned then bus' else on_failure c i now item bus') out.world

  tick_consumer :
      Option (MemoryConsumer P W) → ℕ → ℕ → MemoryEventBus P W → W → MemoryEventBus P W × W
  tick_consumer none i now bus w = (bus, w)
  tick_consumer (some c) i now bus w =
      run_items c i now (filter (is_due now) c.pending)
        (record bus { consumers = update_at i (later_only now) bus.consumers }) w

  -- The loop over the consumers from index `i` on, `left` of them.
  unfoldable pub tick_from : ℕ → ℕ → ℕ → MemoryEventBus P W → W → MemoryEventBus P W × W
  unfolding run_items tick_consumer
  tick_from zero i now bus w = (bus, w)
  tick_from (suc left) i now bus w =
      let (bus', w') = tick_consumer (get_elem? bus.consumers i) i now bus w in
      tick_from left (i + 1) now bus' w'

  -- One round of the loop that `consume` starts; `now` is read once, at its beginning.
  unfoldable pub tick : ℕ → MemoryEventBus P W → W → MemoryEventBus P W × W
  unfolding tick_from
  tick now bus w = tick_from (length bus.consumers) 0 now bus w

  unfoldable pub dead_letters_count : MemoryEventBus P W → ℕ
  dead_letters_count bus = length bus.dead_letters

  abbrev pub total_pending : List (MemoryConsumer P W) → ℕ
  total_pending [] = 0
  total_pending (c ∷ cs) = length c.pending + total_pending cs

  unfoldable pub pending_count : MemoryEventBus P W → ℕ
  pending_count bus = total_pending bus.consumers

  unfoldable pub close : MemoryEventBus P W → MemoryEventBus P W
  close bus = record bus { consumers = []; dead_letters = [] }
