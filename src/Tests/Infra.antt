-- ===== src/Tests/Infra.antt =====
-- Runs of the shared infrastructure: the in-memory Redis and the event bus.
use ops_mesh.Base.{
  ℕ, ◌+◌, ◌≡◌, refl, true, false, some, [], ◌∷◌, String, arith, lookup, zero, suc, ap,
}
use Prim.Native.String.{[], ◌∷◌}
use Prim.Native.Char.{nul}
use ops_mesh.Redis.{Decimal, new_redis, set_nx, live, sliding_window_add}
use ops_mesh.Redis.Window.{IsLog, log_of, sliding_window_add_lem, new_redis-IsLog}
use ops_mesh.EventBus.{
  event, PublishedMessage, PendingMessage, Handled, MemoryConsumer, MemoryEventBus, consume,
  publish, tick,
}
use ops_mesh.EventBus.Bounded.{IsBounded, tick-IsBounded}
use ops_mesh.EventBus.Exhaust.{ticks, single, dead_letter_at_last}

taken : (set_nx new_redis "lock" "a" (some 30) 0).1 ≡ true
unfolding set_nx live new_redis lookup
taken = refl

-- Numbers in unary, as texts of one character.
abbrev ones : ℕ → String
ones zero = ""
ones (suc n) = nul ∷ ones n

abbrev count : String → ℕ
count [] = 0
count (c ∷ s) = suc (count s)

count-ones : (n : ℕ) → count (ones n) ≡ n
count-ones zero = refl
count-ones (suc n) = ap suc (count-ones n)

abbrev unary : Decimal
unary = record { to_number = count; to_text = ones; round_trip = count-ones }

sliding_window_add_lem_example :
    IsLog (sliding_window_add new_redis "k" 60 5 "m").0 "k" 60 5 (("m", 5) ∷ [])
    × ((sliding_window_add new_redis "k" 60 5 "m").1 ≡ 1)
    × (log_of (sliding_window_add new_redis "k" 60 5 "m").0 "j" ≡ log_of new_redis "j")
sliding_window_add_lem_example =
    sliding_window_add_lem new_redis "k" 60 0 5 [] "m" "j" (new_redis-IsLog "k" 60) (omega arith)
      (unfold lookup in refl)

-- Handlers of the bus: one that throws at every message, and a consumer with it.
abbrev throwing : ℕ → PublishedMessage String → Handled String ℕ
throwing w m = record { world = w + 1; returned = false; published = [] }

abbrev consumer : MemoryConsumer String ℕ
consumer = record {
  subject = event;
  max_retries = 3;
  retry_base_ms = 1000;
  handler = throwing;
  pending = [];
}

abbrev fresh : PublishedMessage String
fresh = record { type = "event.ingested"; payload = "p"; attempts = 0; published_at = 0 }

abbrev waiting : PendingMessage String
waiting = record { message = fresh; retry_at = 0; attempts = 0 }

abbrev bus : MemoryEventBus String ℕ
bus = single consumer (waiting ∷ []) [] 0

tick-IsBounded_example :
    IsBounded (tick 0 bus 0).0
    × IsBounded (publish bus "t" "p" event 0)
    × IsBounded (consume bus event 2 1000 throwing)
tick-IsBounded_example =
    tick-IsBounded bus 0 0 "t" "p" event 2 1000 throwing (((omega arith, refl), tt), tt)

dead_letter_at_last_example :
    (ticks (0 ∷ 60000 ∷ 120000 ∷ []) bus 0).0
    ≡ single consumer [] (record fresh { attempts = 2 } ∷ []) 0
dead_letter_at_last_example =
    dead_letter_at_last consumer fresh [] 0 (0 ∷ 60000 ∷ 120000 ∷ []) 0 (λ w m. (refl, refl)) refl
      (omega arith, (omega arith, (omega arith, tt))) refl (omega arith)
