-- ===== src/Health/Alternate.antt =====
-- The events of a service alternate between failure and recovery.
use ops_mesh.Base.{
  ℕ, ◌≡◌, refl, sym, ◌∙◌, ap, Bool, true, false, not, Option, none, some, List, [], ◌∷◌, ◌++◌,
  String, ◌==◌, string_eq, nat_eq, if◌then◌else◌, Map, lookup, insert, lookup-insert, or_else, leb,
  arith, eq_iff, Bool-cases, inl, inr,
}
use ops_mesh.Types.{production}
use ops_mesh.Health.{
  HealthCheckServiceRow, HealthCheckOutcome, Response, EventType, health_check_failure,
  health_check_recovery, ReliabilityEvent, event_severity, event_message, status_of,
  with_service_status, HealthCheckWorker, failures_of, next_failures, event_of,
  emit_reliability_event, record_outcome, check_one, poll,
}

abbrev switched : Bool → EventType → Option Bool
switched true health_check_failure = some false
switched true health_check_recovery = none
switched false health_check_failure = none
switched false health_check_recovery = some true

-- Whether a service counts as up after some events, if a failure is only ever reported of a service
-- that is up, and a recovery of one that is down.
abbrev pub up_after : Option Bool → String → List ReliabilityEvent → Option Bool
up_after none s events = none
up_after (some up) s [] = some up
up_after (some up) s (e ∷ events) =
    let changed = up_after (switched up e.event_type) s events in
    let unchanged = up_after (some up) s events in if e.service_id == s then changed else unchanged

-- The events of a service alternate, a failure first, and the last is a failure exactly while three or
-- more checks in a row have failed.
abbrev pub IsAlternating : HealthCheckWorker → String → Type 0
IsAlternating h s = up_after (some true) s h.published ≡ some (not (leb 3 (failures_of h s)))

abbrev then_event : String → Option Bool → ReliabilityEvent → Option Bool
then_event s none e = none
then_event s (some up) e = if e.service_id == s then switched up e.event_type else some up

up_after-nil : (o : Option Bool) (s : String) → up_after o s [] ≡ o
up_after-nil none s = refl
up_after-nil (some up) s = refl

up_after-snoc :
    (events : List ReliabilityEvent) (o : Option Bool) (s : String) (e : ReliabilityEvent)
    → up_after o s (events ++ e ∷ []) ≡ then_event s (up_after o s events) e
up_after-snoc events none s e = ground arith
up_after-snoc [] (some up) s e = elim (Bool-cases (e.service_id == s)) [
  | inl h ↦ rw h (up_after-nil (switched up e.event_type) s)
  | inr h ↦ rw h refl
]
up_after-snoc (x ∷ events) (some up) s e = elim (Bool-cases (x.service_id == s)) [
  | inl h ↦ rw h (up_after-snoc events (switched up x.event_type) s e)
  | inr h ↦ rw h (up_after-snoc events (some up) s e)
]

-- What the event of a check does to it.
abbrev then_switched : Option Bool → Option EventType → Option Bool
then_switched up none = up
then_switched none (some type) = none
then_switched (some up) (some type) = switched up type

event_of-switched :
    (healthy : Bool) (n : ℕ)
    → then_switched (some (not (leb 3 n))) (event_of healthy n)
      ≡ some (not (leb 3 (next_failures healthy n)))
unfolding event_of
event_of-switched true n = ground arith
event_of-switched false n = ground arith

if-same {ℓ} : {A : Type ℓ} → (b : Bool) (x : A) → (if b then x else x) ≡ x
if-same true x = refl
if-same false x = refl

then_event_lem :
    (s : String) (o : Option Bool) (e : ReliabilityEvent)
    → then_event s o e ≡ (if e.service_id == s then then_switched o (some e.event_type) else o)
then_event_lem s none e = sym (if-same (e.service_id == s) none)
then_event_lem s (some up) e = refl

failures_of-insert :
    (k s : String) (n : ℕ) (m : Map ℕ)
    → or_else (lookup s (insert k n m)) 0 ≡ (if k == s then n else or_else (lookup s m) 0)
failures_of-insert k s n m = ground (arith, lookup-insert k s n m)

module _ (show : ℕ → String) where
  emit_reliability_event-up_after :
      (h : HealthCheckWorker) (svc : HealthCheckServiceRow) (outcome : HealthCheckOutcome)
      (type : Option EventType) (s : String)
      → up_after (some true) s (emit_reliability_event show h svc outcome type).published ≡ (
          if svc.id == s
          then then_switched (up_after (some true) s h.published) type
          else up_after (some true) s h.published)
  unfolding emit_reliability_event
  emit_reliability_event-up_after h svc outcome none s =
      sym (if-same (svc.id == s) (up_after (some true) s h.published))
  emit_reliability_event-up_after h svc outcome (some type) s =
      let e : ReliabilityEvent = record {
        service_id = svc.id;
        service_name = svc.name;
        event_type = type;
        severity = event_severity show type;
        message = event_message show svc outcome type;
        environment = production;
        latency_ms = outcome.latency_ms;
        status_code = outcome.status_code;
        error = outcome.error;
      } in
      up_after-snoc h.published (some true) s e
      ∙ then_event_lem s (up_after (some true) s h.published) e

  emit_reliability_event-consecutive_failures :
      (h : HealthCheckWorker) (svc : HealthCheckServiceRow) (outcome : HealthCheckOutcome)
      (type : Option EventType)
      → (emit_reliability_event show h svc outcome type).consecutive_failures
        ≡ h.consecutive_failures
  unfolding emit_reliability_event
  emit_reliability_event-consecutive_failures h svc outcome none = refl
  emit_reliability_event-consecutive_failures h svc outcome (some type) = refl

  record_outcome-IsAlternating :
      (h : HealthCheckWorker) (svc : HealthCheckServiceRow) (outcome : HealthCheckOutcome)
      (s : String)
      → IsAlternating h s
      → IsAlternating (record_outcome show h svc outcome) s
  unfolding record_outcome
  record_outcome-IsAlternating h svc outcome s alt =
      emit_reliability_event-up_after checked svc outcome (event_of outcome.ok failures) s
      ∙ elim (Bool-cases (svc.id == s)) [
        | inl e ↦
            let same = (eq_iff svc.id s).0 e in
            rw e (
              ap (λ o. then_switched o (event_of outcome.ok failures))
                (alt ∙ ap (λ k. some (not (leb 3 (failures_of h k)))) (sym same))
              ∙ event_of-switched outcome.ok failures
              ∙ ap (λ n. some (not (leb 3 n))) (sym (counter true e)))
        | inr e ↦ rw e (alt ∙ ap (λ n. some (not (leb 3 n))) (sym (counter false e)))
      ]
    where
      failures : ℕ
      failures = failures_of h svc.id

      checked : HealthCheckWorker
      checked = record h {
        consecutive_failures =
            insert svc.id (next_failures outcome.ok failures) h.consecutive_failures;
        world = record h.world {
          db =
              with_service_status svc.id (status_of outcome.ok (next_failures outcome.ok failures))
                (record h.world.db {
                  health_results =
                      h.world.db.health_results
                      ++ record {
                        service_id = svc.id;
                        pass = outcome.ok;
                        latency_ms = outcome.latency_ms;
                        status_code = outcome.status_code;
                        error = outcome.error;
                      }
                        ∷ [];
                });
        };
      }

      counter :
          (b : Bool)
          → (svc.id == s) ≡ b
          → failures_of (record_outcome show h svc outcome) s
            ≡ (if b then next_failures outcome.ok failures else failures_of h s)
      counter b e =
          ap (λ m. or_else (lookup s m) 0)
            (emit_reliability_event-consecutive_failures checked svc outcome
              (event_of outcome.ok failures))
          ∙ failures_of-insert svc.id s (next_failures outcome.ok failures) h.consecutive_failures
          ∙ ap (λ x. if x then next_failures outcome.ok failures else failures_of h s) e

  -- Whatever is polled, with whatever responses: if the events of a service alternate before, they do
  -- after, a failure first, and the last of them is a failure exactly while three or more checks of the
  -- service in a row have failed.
  pub poll-IsAlternating :
      (h : HealthCheckWorker) (checks : List (HealthCheckServiceRow × ℕ × Response)) (s : String)
      → IsAlternating h s
      → IsAlternating (poll show h checks) s
  unfolding poll
  poll-IsAlternating h [] s alt = alt
  poll-IsAlternating h ((svc, latency, response) ∷ rest) s alt =
      poll-IsAlternating (record_outcome show h svc (check_one show svc latency response)) rest s
        (record_outcome-IsAlternating h svc (check_one show svc latency response) s alt)
