-- ===== src/Incidents/Moved.antt =====
-- What the row of an incident holds after the status of incidents.service.ts, updateIncidentStatus, was
-- changed, column by column.
use ops_mesh.Base.{ℕ, ◌≡◌, ◌≢◌, refl, none, some, ◌⊎◌, arith}
use ops_mesh.Types.{IncidentStatus, acknowledged, resolved}
use ops_mesh.Shared.StateMachine.{status_eq}
use ops_mesh.Db.{IncidentRow}
use ops_mesh.Incidents.Status.{with_status}

-- The row `r'` is `r`, moved to the status at `now`.
pub record IsMoved (status : IncidentStatus) (now : ℕ) (r r' : IncidentRow) : Type 0 where
  pub moved : r'.status ≡ status
  pub acknowledgement :
      ((status ≡ acknowledged) × (r.acknowledged_at ≡ none) × (r'.acknowledged_at ≡ some now))
      ⊎ (r'.acknowledged_at ≡ r.acknowledged_at)
  pub acknowledged_or_other : (status ≢ acknowledged) ⊎ (r'.acknowledged_at ≢ none)
  pub resolution :
      ((status ≡ resolved) × (r'.resolved_at ≡ some now))
      ⊎ ((status ≢ resolved) × (r'.resolved_at ≡ r.resolved_at))
  pub updated : r'.updated_at ≡ now
  pub id : r'.id ≡ r.id
  pub title : r'.title ≡ r.title
  pub description : r'.description ≡ r.description
  pub service : r'.service_id ≡ r.service_id
  pub severity : r'.severity ≡ r.severity
  pub priority : r'.priority ≡ r.priority
  pub assigned : r'.assigned_engineer_id ≡ r.assigned_engineer_id
  pub level : r'.escalation_level ≡ r.escalation_level
  pub count : r'.event_count ≡ r.event_count
  pub key : r'.dedupe_key ≡ r.dedupe_key
  pub created : r'.created_at ≡ r.created_at

acknowledged_date :
    (status : IncidentStatus) (now : ℕ) (r : IncidentRow)
    → ((status ≡ acknowledged)
        × (r.acknowledged_at ≡ none)
        × ((with_status status now r).acknowledged_at ≡ some now))
      ⊎ ((with_status status now r).acknowledged_at ≡ r.acknowledged_at)
unfolding with_status
acknowledged_date status now r = ground arith

acknowledged_then :
    (status : IncidentStatus) (now : ℕ) (r : IncidentRow)
    → (status ≢ acknowledged) ⊎ ((with_status status now r).acknowledged_at ≢ none)
unfolding with_status
acknowledged_then status now r = ground arith

resolved_date :
    (status : IncidentStatus) (now : ℕ) (r : IncidentRow)
    → ((status ≡ resolved) × ((with_status status now r).resolved_at ≡ some now))
      ⊎ ((status ≢ resolved) × ((with_status status now r).resolved_at ≡ r.resolved_at))
unfolding with_status
resolved_date status now r = ground arith

pub with_status-IsMoved :
    (status : IncidentStatus) (now : ℕ) (r : IncidentRow)
    → IsMoved status now r (with_status status now r)
unfolding with_status
with_status-IsMoved status now r = record {
  moved = refl;
  acknowledgement = acknowledged_date status now r;
  acknowledged_or_other = acknowledged_then status now r;
  resolution = resolved_date status now r;
  updated = refl;
  id = refl;
  title = refl;
  description = refl;
  service = refl;
  severity = refl;
  priority = refl;
  assigned = refl;
  level = refl;
  count = refl;
  key = refl;
  created = refl;
}
