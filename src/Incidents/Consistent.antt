-- ===== src/Incidents/Consistent.antt =====
-- What holds of every stored incident, and that each operation of the API keeps it.
use ops_mesh.Base.{
  ℕ, ◌≡◌, refl, sym, subst, ◌≢◌, true, not, some, String, ◌==◌, ◌&&◌, string_eq, find, update_where,
  is_some, All, arith, ◌⊎◌,
}
use ops_mesh.Types.{IncidentStatus, IncidentSeverity, acknowledged, resolved}
use ops_mesh.Shared.StateMachine.{status_eq, validate_status_transition}
use ops_mesh.Shared.Severity.{severity_to_priority}
use ops_mesh.Db.{Db, IncidentRow, has_id}
use ops_mesh.Errors.{Result, ok, err}
use ops_mesh.World.{transaction}
use ops_mesh.Incidents.Rows.{get_incident, update_incident}
use ops_mesh.Incidents.Status.{UpdateStatusParams, with_status, write_status, update_status_tx}
use ops_mesh.Incidents.Edit.{with_severity, with_engineer, with_reopened}
use ops_mesh.Incidents.Keys.{IsKeyed, All-update_keyed, update_where-IsKeyed}
use ops_mesh.Incidents.Rows.{Answered}
use ops_mesh.Shared.StateMachine.{valid}

-- A stored incident is consistent.
pub record IsConsistent (r : IncidentRow) : Type 0 where
  pub priority : r.priority ≡ severity_to_priority r.severity
  pub resolution : is_some r.resolved_at ≡ (r.status == resolved)
  pub acknowledgement : (r.status ≢ acknowledged) ⊎ (is_some r.acknowledged_at ≡ true)

abbrev pub AllConsistent : Db → Type 0
AllConsistent db = All IsConsistent db.incidents

pub with_status-IsConsistent :
    (r : IncidentRow) (status : IncidentStatus) (now : ℕ)
    → r.status ≢ resolved
    → IsConsistent r
    → IsConsistent (with_status status now r)
unfolding with_status
with_status-IsConsistent r status now live h = ground arith

pub with_severity-IsConsistent :
    (r : IncidentRow) (severity : IncidentSeverity) (now : ℕ)
    → IsConsistent r
    → IsConsistent (with_severity severity now r)
unfolding with_severity
with_severity-IsConsistent r severity now h = ground arith

pub with_engineer-IsConsistent :
    (r : IncidentRow) (user_id : String) (now : ℕ)
    → IsConsistent r
    → IsConsistent (with_engineer user_id now r)
unfolding with_engineer
with_engineer-IsConsistent r user_id now h = ground arith

pub with_reopened-IsConsistent :
    (r : IncidentRow) (now : ℕ) → IsConsistent r → IsConsistent (with_reopened now r)
unfolding with_reopened
with_reopened-IsConsistent r now h = ground arith

-- The table has its primary key, and every incident is consistent.
pub record IsSound (db : Db) : Type 0 where
  pub keyed : IsKeyed db.incidents
  pub consistent : AllConsistent db

-- A transaction keeps what its writes keep, whether it commits or rolls back.
pub transaction_keeps {ℓ} :
    {A : Type 0} (P : Db → Type ℓ) (fn : Db → Result (Db × A)) (db : Db)
    → P db
    → ((db' : Db) (a : A) → fn db ≡ ok (db', a) → P db')
    → P (transaction fn db).0
unfolding transaction
transaction_keeps {A} P fn db h keep = go (fn db) keep
  where
    go :
        (r : Result (Db × A))
        → ((db' : Db) (a : A) → r ≡ ok (db', a) → P db')
        → P (elim r as (λ _. Db × Result A) [ ok (db', a) ↦ (db', ok a) | err e ↦ (db, err e) ]).0
    go (ok (db', a)) k = k db' a refl
    go (err e) k = h

-- A change of the row with an id that keeps its id and its consistency.
pub update_incident-IsSound :
    (db : Db) (id : String) (f : IncidentRow → IncidentRow)
    → IsSound db
    → ((r : IncidentRow) → (f r).id ≡ r.id)
    → ((r : IncidentRow) → get_incident db id ≡ some r → IsConsistent r → IsConsistent (f r))
    → IsSound (update_incident id f db)
unfolding get_incident
update_incident-IsSound db id f s same keep = record {
  keyed = update_where-IsKeyed id f same db.incidents s.keyed;
  consistent = All-update_keyed IsConsistent id f db.incidents s.keyed s.consistent keep;
}

pub IsSound-incidents : (db db' : Db) → db'.incidents ≡ db.incidents → IsSound db → IsSound db'
IsSound-incidents db db' e s = record {
  keyed = subst IsKeyed (sym e) s.keyed;
  consistent = subst (All IsConsistent) (sym e) s.consistent;
}

pub write_status-incidents :
    (db : Db) (incident : IncidentRow) (p : UpdateStatusParams) (now : ℕ)
    → (write_status db incident p now).incidents
      ≡ update_where (has_id incident.id) (with_status p.status now) db.incidents
unfolding write_status
write_status-incidents db incident p now = ground arith

-- What a successful transaction found and wrote.
pub update_status_tx-ok :
    (id : String) (p : UpdateStatusParams) (now : ℕ) (db db' : Db) (a : Answered)
    → update_status_tx id p now db ≡ ok (db', a)
    → (find (λ r. has_id id r && not (r.status == resolved)) db.incidents ≡ some a.incident)
      × (validate_status_transition a.incident.status p.status ≡ valid)
      × (db' ≡ write_status db a.incident p now)
      × (a.answer ≡ get_incident db id)
unfolding update_status_tx
update_status_tx-ok id p now db db' a h = ground arith
