-- ===== src/Escalation/StepUp.antt =====
-- What one poll of escalation.worker.ts does to each incident: when it may be raised, and what the
-- raised row holds, column by column.
use ops_mesh.Base.{
  ℕ, ◌+◌, ◌*◌, ◌≤◌, ◌<◌, ◌≡◌, ◌≢◌, refl, ◌∙◌, ap, true, Option, none, some, List, [], ◌∷◌, String,
  if◌then◌else◌, ◌⊎◌, inl, inr, find, leb, arith, Option-cases, nat_eq, ◌==◌,
}
use ops_mesh.Types.{open_, escalated, mitigated, resolved}
use ops_mesh.Shared.StateMachine.{status_eq}
use ops_mesh.Db.{Db, IncidentRow, StepRow}
use ops_mesh.World.{World}
use ops_mesh.Incidents.Rows.{get_incident}
use ops_mesh.Incidents.Keys.{IsKeyed}
use ops_mesh.Escalation.{
  Runtime, steps_for_incident, next_step, is_candidate, is_due, delay_up_to, delay_for_next_step,
}
use ops_mesh.Escalation.Step.{raised, poll}
use ops_mesh.Escalation.Safety.{poll-raised}

-- The row `r'` is `r`, one level up.
pub record IsStepUp (now : ℕ) (r r' : IncidentRow) : Type 0 where
  pub level : r'.escalation_level ≡ r.escalation_level + 1
  pub status :
      ((r.status ≡ open_) × (r'.status ≡ escalated)) ⊎ ((r.status ≢ open_) × (r'.status ≡ r.status))
  pub updated : r'.updated_at ≡ now
  pub id : r'.id ≡ r.id
  pub title : r'.title ≡ r.title
  pub description : r'.description ≡ r.description
  pub service : r'.service_id ≡ r.service_id
  pub severity : r'.severity ≡ r.severity
  pub priority : r'.priority ≡ r.priority
  pub acknowledgement : r'.acknowledged_at ≡ r.acknowledged_at
  pub resolution : r'.resolved_at ≡ r.resolved_at
  pub count : r'.event_count ≡ r.event_count
  pub key : r'.dedupe_key ≡ r.dedupe_key
  pub created : r'.created_at ≡ r.created_at

raised_status :
    (engineer : Option String) (now : ℕ) (r : IncidentRow)
    → ((r.status ≡ open_) × ((raised engineer now r).status ≡ escalated))
      ⊎ ((r.status ≢ open_) × ((raised engineer now r).status ≡ r.status))
unfolding raised
raised_status engineer now r = ground arith

pub raised-IsStepUp :
    (engineer : Option String) (now : ℕ) (r : IncidentRow) → IsStepUp now r (raised engineer now r)
unfolding raised
raised-IsStepUp engineer now r = record {
  level = refl;
  status = raised_status engineer now r;
  updated = refl;
  id = refl;
  title = refl;
  description = refl;
  service = refl;
  severity = refl;
  priority = refl;
  acknowledgement = refl;
  resolution = refl;
  count = refl;
  key = refl;
  created = refl;
}

-- The minutes until a level is due: the delays of the steps up to it.
abbrev pub minutes_until : ℕ → List StepRow → ℕ
minutes_until level [] = 0
minutes_until level (s ∷ steps) =
    let rest = minutes_until level steps in
    if leb s.level level then s.delay_minutes + rest else rest

-- The row `r` may be raised at `now` by the steps that apply to it.
pub record IsRaisable (steps : List StepRow) (now : ℕ) (r : IncidentRow) : Type 0 where
  pub unacknowledged : r.acknowledged_at ≡ none
  pub unmitigated : r.status ≢ mitigated
  pub unresolved : r.status ≢ resolved
  pub below : r.escalation_level < 10
  pub step : (s : StepRow) × (find (λ s. s.level == r.escalation_level + 1) steps ≡ some s)
  pub elapsed : r.created_at + minutes_until (r.escalation_level + 1) steps * 60000 ≤ now

delay_up_to-minutes_until :
    (steps : List StepRow) (level : ℕ) → delay_up_to steps level ≡ minutes_until level steps
unfolding delay_up_to
delay_up_to-minutes_until [] level = refl
delay_up_to-minutes_until (s ∷ steps) level = ground (arith, delay_up_to-minutes_until steps level)

candidate_facts :
    (r : IncidentRow)
    → is_candidate r ≡ true
    → (r.acknowledged_at ≡ none)
      × (r.status ≢ mitigated)
      × (r.status ≢ resolved)
      × (r.escalation_level < 10)
unfolding is_candidate
candidate_facts r h = ground (arith, h)

pub raisable :
    (rt : Runtime) (db : Db) (now : ℕ) (r : IncidentRow)
    → is_candidate r ≡ true
    → is_due rt db now r ≡ true
    → IsRaisable (steps_for_incident rt db r) now r
unfolding is_due delay_for_next_step
raisable rt db now r c h =
    let steps = steps_for_incident rt db r in
    let (unacknowledged, unmitigated, unresolved, below) = candidate_facts r c in
    elim (Option-cases (next_step steps r)) [
      | inl e ↦ absurd (ground (arith, rw (is_due, delay_for_next_step, e) at h))
      | inr (s, e) ↦
          let g = rw (is_due, delay_for_next_step, e) at h in
          record {
            unacknowledged = unacknowledged;
            unmitigated = unmitigated;
            unresolved = unresolved;
            below = below;
            step = (s, e);
            elapsed = ground (arith, g, delay_up_to-minutes_until steps (r.escalation_level + 1));
          }
    ]

-- One poll leaves every incident as it is, or raises it by exactly one level. It raises only an incident
-- that is neither acknowledged nor mitigated nor resolved, whose level is below 10, for which the steps
-- of the policy that the query takes for it have one of the next level, and whose time since creation
-- has reached the sum of the delays of the steps up to that level. A raised incident goes from OPEN to
-- ESCALATED, or keeps its status, and keeps all else but its engineer and the time of its update.
pub poll-row :
    (rt : Runtime) (w : World) (ids : ℕ → ℕ → String) (now : ℕ) (q : String) (r : IncidentRow)
    → IsKeyed w.db.incidents
    → get_incident w.db q ≡ some r
    → (r' : IncidentRow) × (get_incident (poll rt w ids now).0.db q ≡ some r')
      × ((r' ≡ r) ⊎ (IsRaisable (steps_for_incident rt w.db r) now r × IsStepUp now r r'))
poll-row rt w ids now q r k h =
    let (r', e, how) = poll-raised rt w ids now q r k h in
    elim how [
      | inl same ↦ (r', e, inl same)
      | inr (candidate, due, (engineer, up)) ↦ (
        raised engineer now r,
        e ∙ ap some up,
        inr (raisable rt w.db now r candidate due, raised-IsStepUp engineer now r),
      )
    ]
