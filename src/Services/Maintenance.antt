-- ===== src/Services/Maintenance.antt =====
-- A service that was disabled: what the registry and the health checks can still do to it.
use ops_mesh.Base.{
  ℕ, ◌≡◌, refl, sym, ◌∙◌, ap, subst, zero, suc, ◌++◌, get_elem?, All-get_elem?, ◌⊎◌, inl, inr, true,
  false, not, Option, none, some, List, [], ◌∷◌, String, ◌==◌, string_eq, ◌&&◌, any, update_where,
  All, All-append, arith, eq_iff, Bool-cases,
}
use ops_mesh.Types.{ServiceStatus}
use ops_mesh.Db.{Db, ServiceRow}
use ops_mesh.Errors.{ok}
use ops_mesh.Processor.{has_service_id}
use ops_mesh.Auth.Keys.{is_service}
use ops_mesh.Health.{
  HealthCheckServiceRow, HealthCheckOutcome, HealthCheckWorker, Response, EventType, is_maintenance,
  due_service, due_services, emit_reliability_event, record_outcome, check_one,
}
use ops_mesh.Services.{UpdateServiceInput, update_service, in_maintenance, disable_service}
use ops_mesh.Services.Update.{update_service-db}

-- Every row of that id which is not deleted is in maintenance.
abbrev pub IsOutOfService : String → List ServiceRow → Type 0
IsOutOfService id services =
    any (λ s. is_service id s && not (is_maintenance s.status)) services ≡ false

disabled_rows :
    (id : String) (services : List ServiceRow)
    → IsOutOfService id (update_where (is_service id) in_maintenance services)
disabled_rows id [] = refl
disabled_rows id (s ∷ services) = ground (arith, disabled_rows id services)

disabled_again :
    (id other : String) (services : List ServiceRow)
    → IsOutOfService id services
    → IsOutOfService id (update_where (is_service other) in_maintenance services)
disabled_again id other [] h = refl
disabled_again id other (s ∷ services) h = ground (arith, disabled_again id other services)

status_elsewhere :
    (id other : String) (status : ServiceStatus) (services : List ServiceRow)
    → (other == id) ≡ false
    → IsOutOfService id services
    → IsOutOfService id
        (update_where (has_service_id other) (λ s. record s { status = status }) services)
status_elsewhere id other status [] ne h = refl
status_elsewhere id other status (s ∷ services) ne h = elim (Bool-cases (s.id == other)) [
  | inl e ↦
      let this : (s.id == id) ≡ false = ap (λ i. i == id) ((eq_iff s.id other).0 e) ∙ ne in
      ground
        (arith, e, this, status_elsewhere id other status services ne (ground (arith, h, this)))
  | inr e ↦ ground (arith, e, h, status_elsewhere id other status services ne)
]

due-others :
    (id : String) (services : List ServiceRow)
    → IsOutOfService id services
    → All (λ r. (r.id == id) ≡ false) (due_services services)
unfolding due_services
due-others id [] h = tt
due-others id (s ∷ services) h =
    All-append (λ r. (r.id == id) ≡ false) (due_service s s.health_check_url)
      (due_services services) (go s.health_check_url) (due-others id services (ground (arith, h)))
  where
    differs :
        (not s.deleted && not (is_maintenance s.status)) ≡ true
        → ((s.id == id) ≡ true) ⊎ ((s.id == id) ≡ false)
        → (s.id == id) ≡ false
    differs e (inl same) = absurd (ground (arith, e, same, h))
    differs e (inr ne) = ne

    go : (url : Option String) → All (λ r. (r.id == id) ≡ false) (due_service s url)
    go none = tt
    go (some url) = elim (Bool-cases (not s.deleted && not (is_maintenance s.status))) [
      | inl e ↦ rw e (differs e (Bool-cases (s.id == id)), tt)
      | inr e ↦ rw e tt
    ]

-- The worker with the rows that its polls have read, and whose checks have not been written yet.
pub record Monitor : Type 0 where
  pub worker : HealthCheckWorker
  pub in_flight : List HealthCheckServiceRow

-- What can happen to the services: the routes that change one, a poll that reads the rows to check, and
-- the end of the n-th check under way, when its outcome is written.
pub data ServiceStep : Type 0 where
  update : (id : String) → UpdateServiceInput → (actor_id : String) → ServiceStep
  disable : (id actor_id : String) → ServiceStep
  read_due : ServiceStep
  finish : (n latency : ℕ) → Response → ServiceStep

abbrev remove_at {ℓ} : {A : Type ℓ} → ℕ → List A → List A
remove_at n [] = []
remove_at zero (x ∷ xs) = xs
remove_at (suc n) (x ∷ xs) = x ∷ remove_at n xs

All-remove_at {ℓ κ} :
    {A : Type ℓ} (P : A → Type κ) (n : ℕ) (xs : List A) → All P xs → All P (remove_at n xs)
All-remove_at P n [] h = tt
All-remove_at P zero (x ∷ xs) (h, hs) = hs
All-remove_at P (suc n) (x ∷ xs) (h, hs) = (h, All-remove_at P n xs hs)

-- A service that is out of service, and of which no check is under way.
abbrev IsQuiet : String → Monitor → Type 0
IsQuiet id m =
    IsOutOfService id m.worker.world.db.services × All (λ r. (r.id == id) ≡ false) m.in_flight

module _ (show : ℕ → String) where
  emit_reliability_event-world :
      (h : HealthCheckWorker) (svc : HealthCheckServiceRow) (outcome : HealthCheckOutcome)
      (type : Option EventType)
      → (emit_reliability_event show h svc outcome type).world ≡ h.world
  unfolding emit_reliability_event
  emit_reliability_event-world h svc outcome none = refl
  emit_reliability_event-world h svc outcome (some type) = refl

  record_outcome-IsOutOfService :
      (id : String) (h : HealthCheckWorker) (svc : HealthCheckServiceRow)
      (outcome : HealthCheckOutcome)
      → (svc.id == id) ≡ false
      → IsOutOfService id h.world.db.services
      → IsOutOfService id (record_outcome show h svc outcome).world.db.services
  unfolding record_outcome
  record_outcome-IsOutOfService id h svc outcome ne disabled =
      subst (λ w. IsOutOfService id w.db.services)
        (sym (emit_reliability_event-world _ svc outcome _))
        (status_elsewhere id svc.id _ h.world.db.services ne disabled)

  abbrev pub in_db : Monitor → Db → Monitor
  in_db m db = record m { worker = record m.worker { world = record m.worker.world { db = db } } }

  abbrev pub finished : Monitor → ℕ → ℕ → Response → Option HealthCheckServiceRow → Monitor
  finished m n latency response none = m
  finished m n latency response (some svc) = record {
    worker = record_outcome show m.worker svc (check_one show svc latency response);
    in_flight = remove_at n m.in_flight;
  }

  unfoldable pub service_step : Monitor → ServiceStep → Monitor
  service_step m (update id input actor_id) =
      in_db m (update_service m.worker.world.db id input actor_id).0
  service_step m (disable id actor_id) = in_db m (disable_service m.worker.world.db id actor_id).0
  service_step m read_due = record m {
    in_flight = m.in_flight ++ due_services m.worker.world.db.services;
  }
  service_step m (finish n latency response) =
      finished m n latency response (get_elem? m.in_flight n)

  unfoldable pub service_steps : Monitor → List ServiceStep → Monitor
  unfolding service_step
  service_steps m [] = m
  service_steps m (s ∷ steps) = service_steps (service_step m s) steps

  disable-IsOutOfService :
      (id other actor_id : String) (db : Db)
      → IsOutOfService id db.services
      → IsOutOfService id (disable_service db other actor_id).0.services
  unfolding disable_service
  disable-IsOutOfService id other actor_id db h =
      elim (Bool-cases (any (is_service other) db.services)) [
        | inl e ↦ rw e (disabled_again id other db.services h)
        | inr e ↦ rw e h
      ]

  finished-IsQuiet :
      (id : String) (m : Monitor) (n latency : ℕ) (response : Response)
      (o : Option HealthCheckServiceRow)
      → get_elem? m.in_flight n ≡ o
      → IsQuiet id m
      → IsQuiet id (finished m n latency response o)
  finished-IsQuiet id m n latency response none e quiet = quiet
  finished-IsQuiet id m n latency response (some svc) e (out, others) = (
    record_outcome-IsOutOfService id m.worker svc (check_one show svc latency response)
        (All-get_elem? (λ r. (r.id == id) ≡ false) m.in_flight n svc others e) out,
    All-remove_at (λ r. (r.id == id) ≡ false) n m.in_flight others,
  )

  service_step-IsQuiet :
      (id : String) (m : Monitor) (s : ServiceStep) → IsQuiet id m → IsQuiet id (service_step m s)
  unfolding service_step
  service_step-IsQuiet id m (update other input actor_id) (out, others) = (
    subst (λ db. IsOutOfService id db.services)
        (sym (update_service-db m.worker.world.db other actor_id input)) out,
    others,
  )
  service_step-IsQuiet id m (disable other actor_id) (out, others) =
      (disable-IsOutOfService id other actor_id m.worker.world.db out, others)
  service_step-IsQuiet id m read_due (out, others) = (
    out,
    All-append (λ r. (r.id == id) ≡ false) m.in_flight (due_services m.worker.world.db.services)
        others (due-others id m.worker.world.db.services out),
  )
  service_step-IsQuiet id m (finish n latency response) quiet =
      finished-IsQuiet id m n latency response (get_elem? m.in_flight n) refl quiet

  service_steps-IsQuiet :
      (id : String) (m : Monitor) (steps : List ServiceStep)
      → IsQuiet id m
      → IsQuiet id (service_steps m steps)
  unfolding service_steps
  service_steps-IsQuiet id m [] quiet = quiet
  service_steps-IsQuiet id m (s ∷ steps) quiet =
      service_steps-IsQuiet id (service_step m s) steps (service_step-IsQuiet id m s quiet)

  -- A service that was disabled while no check of it was under way is in maintenance, and stays so for
  -- good: no sequence of updates, of further services disabled, of polls that read the rows to check and
  -- of checks that end, in whatever order and with whatever responses, gives it another status.
  pub disabled_for_good :
      (id actor_id : String) (m : Monitor) (steps : List ServiceStep) (db : Db)
      → disable_service m.worker.world.db id actor_id ≡ (db, ok tt)
      → All (λ r. (r.id == id) ≡ false) m.in_flight
      → IsOutOfService id (service_steps (in_db m db) steps).worker.world.db.services
  unfolding disable_service
  disabled_for_good id actor_id m steps db done idle =
      let out : IsOutOfService id db.services =
        elim (Bool-cases (any (is_service id) m.worker.world.db.services)) [
          | inl e ↦
              subst (λ p. IsOutOfService id p.0.services) (rw e at done)
                (disabled_rows id m.worker.world.db.services)
          | inr e ↦ absurd (ground (arith, rw e at done))
        ] in
      (service_steps-IsQuiet id (in_db m db) steps (out, idle)).0
