-- ===== src/EventBus/Rabbit.antt =====
-- packages/infra/src/eventbus.ts, class RabbitEventBus: what its consumer tells the broker about a
-- delivery. What the broker does with it is not part of the program.
use ops_mesh.Base.{
  ℕ, ◌+◌, ◌-◌, ◌*◌, ◌^◌, min, Bool, false, Option, none, some, List, [], ◌∷◌, leb, if◌then◌else◌,
}
use ops_mesh.EventBus.{PublishedMessage}

pub data Queue : Type 0 where
  main dlq : Queue

-- The calls on the channel. A `send` may carry an expiration, and may be delayed by a timer.
pub data Command (P : Type 0) : Type 0 where
  ack : Command P
  nack : (requeue : Bool) → Command P
  send : Queue → PublishedMessage P → (expiration : Option ℕ) → (delay : ℕ) → Command P

unfoldable pub delay_ms : ℕ → ℕ → ℕ
delay_ms retry_base_ms attempts = min (retry_base_ms * 2 ^ (attempts - 1)) 60000

module _ {P : Type 0} where
  -- The callback of `channel.consume`: `parsed` is none for content that is no JSON, and `returned`
  -- says whether the handler returned.
  unfoldable pub on_delivery : ℕ → ℕ → Option (PublishedMessage P) → Bool → List (Command P)
  unfolding delay_ms
  on_delivery max_retries retry_base_ms none returned = nack false ∷ []
  on_delivery max_retries retry_base_ms (some parsed) returned =
      let attempts = parsed.attempts + 1 in
      let parsed' : PublishedMessage P = record parsed { attempts = attempts } in
      let delay = delay_ms retry_base_ms attempts in
      if returned
      then ack ∷ []
      else if leb max_retries attempts
      then ack ∷ send dlq parsed' none 0 ∷ []
      else nack false ∷ send main parsed' (some delay) delay ∷ []
