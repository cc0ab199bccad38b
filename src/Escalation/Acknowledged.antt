-- ===== src/Escalation/Acknowledged.antt =====
-- Escalation and acknowledgement, together with the operations of the API.
use ops_mesh.Base.{
  ℕ, ◌≤◌, ◌≡◌, refl, sym, ◌∙◌, ap, true, false, none, some, List, [], ◌∷◌, String, string_eq, find,
  any, arith, eq_refl, inl, inr,
}
use ops_mesh.Db.{IncidentRow, StepRow, has_id}
use ops_mesh.Errors.{ok}
use ops_mesh.World.{World, Json}
use ops_mesh.World.Transaction.{transaction-result}
use ops_mesh.Incidents.Rows.{get_incident}
use ops_mesh.Incidents.Routes.{Auth, Request, handle}
use ops_mesh.Incidents.Consistent.{IsSound}
use ops_mesh.Incidents.Preserve.{handle-IsSound}
use ops_mesh.Incidents.Evolution.{handle-IsEvolution}
use ops_mesh.Incidents.Lifecycle.{get_incident-update_where}
use ops_mesh.Escalation.{Runtime, steps_for_incident, next_step, is_candidate, delay_up_to}
use ops_mesh.Escalation.Step.{
  resolve_target, target_id, next_engineer, raised, write_step, escalate_tx, announced, stepped,
  escalate_once, poll,
}
use ops_mesh.Escalation.StepUp.{IsStepUp, raised-IsStepUp}
use ops_mesh.Escalation.Safety.{poll-raised, write_step-incidents}

-- A higher level is due no earlier than a lower one.
pub delay_up_to_mono :
    (steps : List StepRow) (low high : ℕ)
    → low ≤ high
    → delay_up_to steps low ≤ delay_up_to steps high
unfolding delay_up_to
delay_up_to_mono [] low high h = omega arith
delay_up_to_mono (s ∷ steps) low high h = ground (arith, delay_up_to_mono steps low high h)

not_candidate : (r : IncidentRow) (t : ℕ) → r.acknowledged_at ≡ some t → is_candidate r ≡ false
unfolding is_candidate
not_candidate r t h = ground (arith, h)

-- Once an incident has been acknowledged, no poll escalates it, at whatever time, after whatever
-- further request to the API: not even after a request that reopens it.
pub acknowledged_stays :
    (j : Json) (rt : Runtime) (w : World) (auth : Auth) (id : String) (request : Request)
    (now later : ℕ) (ids : ℕ → ℕ → String) (q : String) (r : IncidentRow) (t : ℕ)
    → IsSound w.db
    → get_incident w.db q ≡ some r
    → r.acknowledged_at ≡ some t
    → (let w' = (handle j w auth id request now).0 in
        get_incident (poll rt w' ids later).0.db q ≡ get_incident w'.db q)
acknowledged_stays j rt w auth id request now later ids q r t s h ack =
    let w' : World = (handle j w auth id request now).0 in
    let (r1, e1, evolved) = handle-IsEvolution j w auth id request now q r s h in
    let sound = handle-IsSound j w auth id request now s in
    let (r2, e2, how) = poll-raised rt w' ids later q r1 sound.keyed e1 in
    elim how [
      | inl same ↦ e2 ∙ ap some same ∙ sym e1
      | inr (candidate, _, _) ↦ elim evolved.acknowledgement [
        | inl kept ↦ absurd (clash r1 candidate (kept ∙ ack))
        | inr never ↦ absurd (absent never)
      ]
    ]
  where
    clash : (r1 : IncidentRow) → is_candidate r1 ≡ true → r1.acknowledged_at ≡ some t → ⊥
    clash r1 c a = let n = not_candidate r1 t a in ground (arith, n, c)

    absent : r.acknowledged_at ≡ none → ⊥
    absent never = ground (arith, never, ack)

-- The step itself does not look at the stored row again: with a row that a poll read, and for which
-- there is a next step, it raises the stored incident of that id by one level, whatever has happened to
-- it since, also when it was acknowledged or resolved in between: it goes from OPEN to ESCALATED or
-- keeps its status, and all but the level, the engineer and the time of the update is kept.
pub escalate_once-unchecked :
    (rt : Runtime) (w : World) (read : IncidentRow) (step : StepRow) (r : IncidentRow)
    (ids : ℕ → String) (now : ℕ)
    → next_step (steps_for_incident rt w.db read) read ≡ some step
    → get_incident w.db read.id ≡ some r
    → (r' : IncidentRow) × (get_incident (escalate_once rt w read ids now).0.db read.id ≡ some r')
      × IsStepUp now r r'
unfolding escalate_once
escalate_once-unchecked rt w read step r ids now next h =
    let target = resolve_target w.db step.target_type step.target_id now in
    let engineer = next_engineer (target_id target) read.assigned_engineer_id in
    let t =
      transaction-result (escalate_tx rt read step target ids now) w.db
        (ok (write_step rt w.db read step target ids now, tt))
        (unfold escalate_tx in rw (stored w.db.incidents (unfold get_incident in h)) refl) in
    (
      raised engineer now r,
      ap (λ o. get_incident (stepped rt w read ids now o).0.db read.id) next
          ∙ ap (λ d. get_incident (announced rt w read d).0.db read.id) t
          ∙ get_incident-update_where w.db (write_step rt w.db read step target ids now) read.id
              (raised engineer now) read.id (write_step-incidents rt w.db read step target ids now)
              (λ x. unfold raised in refl)
          ∙ rw (eq_refl read.id, h) refl,
      raised-IsStepUp engineer now r,
    )
  where
    stored :
        (rs : List IncidentRow) → find (has_id read.id) rs ≡ some r → any (has_id read.id) rs ≡ true
    stored [] f = absurd (ground arith)
    stored (x ∷ rs) f = ground (arith, stored rs)
