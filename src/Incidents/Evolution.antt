-- ===== src/Incidents/Evolution.antt =====
-- What a request of the API may do to an incident: its status follows the state machine or is
-- reopened, and an acknowledgement is never taken back.
use ops_mesh.Base.{
  ℕ, ◌≡◌, refl, sym, ◌∙◌, ap, subst, true, Option, none, some, String, ◌==◌, string_eq, find,
  update_where, arith, Bool-cases, eq_iff, inl, inr, ◌⊎◌,
}
use ops_mesh.Types.{IncidentStatus, IncidentSeverity, open_, acknowledged, resolved}
use ops_mesh.Shared.StateMachine.{status_eq, is_valid_transition, validate_status_transition, valid}
use ops_mesh.Db.{Db, IncidentRow, has_id}
use ops_mesh.Errors.{ok}
use ops_mesh.World.{World, Json}
use ops_mesh.Incidents.Rows.{get_incident, Answered}
use ops_mesh.Incidents.Status.{
  UpdateStatusParams, with_status, update_status_tx, update_incident_status,
}
use ops_mesh.Incidents.Edit.{
  with_severity, change_severity_tx, change_severity, with_engineer, assign_engineer_tx,
  assign_engineer, add_comment, with_reopened, reopen_tx, reopen_incident,
}
use ops_mesh.Incidents.Routes.{
  Auth, Request, acknowledge, patch_status, severity, assign, comment, reopen, handle, is_settable,
  status_params,
}
use ops_mesh.Incidents.Consistent.{
  IsSound, transaction_keeps, write_status-incidents, update_status_tx-ok,
}
use ops_mesh.Incidents.Preserve.{
  find_unresolved, change_severity_tx-writes, assign_engineer_tx-writes, reopen_tx-writes,
  update_incident_status-db, reopen_incident-db, add_comment-incidents, answer-world,
  answer_added-world,
}
use ops_mesh.Incidents.Lifecycle.{get_incident-update_where}

-- One row, before and after.
pub record IsEvolution (r r' : IncidentRow) : Type 0 where
  pub status :
      (r'.status ≡ r.status)
      ⊎ (is_valid_transition r.status r'.status ≡ true)
      ⊎ ((r.status ≡ resolved) × (r'.status ≡ open_))
  pub acknowledgement : (r'.acknowledged_at ≡ r.acknowledged_at) ⊎ (r.acknowledged_at ≡ none)
  pub key : r'.dedupe_key ≡ r.dedupe_key
  pub level : r'.escalation_level ≡ r.escalation_level
  pub count : r'.event_count ≡ r.event_count
  pub birth : r'.created_at ≡ r.created_at

-- Every incident of the one database is in the other, evolved.
abbrev pub IsLater : Db → Db → Type 0
IsLater db db' =
    (q : String) (r : IncidentRow)
    → get_incident db q ≡ some r
    → (r' : IncidentRow) × (get_incident db' q ≡ some r') × IsEvolution r r'

unchanged : (r : IncidentRow) → IsEvolution r r
unchanged r = record {
  status = inl refl;
  acknowledgement = inl refl;
  key = refl;
  level = refl;
  count = refl;
  birth = refl;
}

IsLater-same : (db db' : Db) → db'.incidents ≡ db.incidents → IsLater db db'
IsLater-same db db' e q r h =
    (r, unfold get_incident in (ap (find (has_id q)) e ∙ unfold get_incident in h), unchanged r)

IsLater-update :
    (db db' : Db) (id : String) (f : IncidentRow → IncidentRow)
    → db'.incidents ≡ update_where (has_id id) f db.incidents
    → ((r : IncidentRow) → (f r).id ≡ r.id)
    → ((r : IncidentRow) → get_incident db id ≡ some r → IsEvolution r (f r))
    → IsLater db db'
IsLater-update db db' id f e keep evolve q r h =
    let seen = get_incident-update_where db db' id f q e keep in
    elim (Bool-cases (q == id)) [
      | inl same ↦ (
        f r,
        seen ∙ rw (same, h) refl,
        evolve r (ap (get_incident db) (sym ((eq_iff q id).0 same)) ∙ h),
      )
      | inr other ↦ (r, seen ∙ rw other h, unchanged r)
    ]

with_status-IsEvolution :
    (r : IncidentRow) (status : IncidentStatus) (now : ℕ)
    → validate_status_transition r.status status ≡ valid
    → IsEvolution r (with_status status now r)
unfolding with_status validate_status_transition
with_status-IsEvolution r status now h = ground arith

with_severity-IsEvolution :
    (r : IncidentRow) (sev : IncidentSeverity) (now : ℕ) → IsEvolution r (with_severity sev now r)
unfolding with_severity
with_severity-IsEvolution r sev now = ground arith

with_engineer-IsEvolution :
    (r : IncidentRow) (user : String) (now : ℕ) → IsEvolution r (with_engineer user now r)
unfolding with_engineer
with_engineer-IsEvolution r user now = ground arith

with_reopened-IsEvolution :
    (r : IncidentRow) (now : ℕ) → r.status ≡ resolved → IsEvolution r (with_reopened now r)
unfolding with_reopened
with_reopened-IsEvolution r now h = ground arith

module _ (j : Json) where
  update_incident_status-IsLater :
      (w : World) (id : String) (p : UpdateStatusParams) (now : ℕ)
      → IsSound w.db
      → IsLater w.db (update_incident_status j w id p now).0.db
  update_incident_status-IsLater w id p now s =
      subst (IsLater w.db) (sym (update_incident_status-db j w id p now)) (
        transaction_keeps (IsLater w.db) (update_status_tx id p now) w.db
          (IsLater-same w.db w.db refl) written)
    where
      only :
          (r a : IncidentRow)
          → some r ≡ some a
          → validate_status_transition a.status p.status ≡ valid
          → validate_status_transition r.status p.status ≡ valid
      only r a e h = ground arith

      written :
          (db' : Db) (a : Answered)
          → update_status_tx id p now w.db ≡ ok (db', a)
          → IsLater w.db db'
      written db' a h =
          let (found, allowed, wrote, _) = update_status_tx-ok id p now w.db db' a h in
          let (here, _, same) = find_unresolved w.db id a.incident s found in
          IsLater-update w.db db' a.incident.id (with_status p.status now)
            (ap (λ d. d.incidents) wrote ∙ write_status-incidents w.db a.incident p now)
            (λ r. unfold with_status in refl)
            (λ r got.
              with_status-IsEvolution r p.status now
                (only r a.incident (sym got ∙ ap (get_incident w.db) same ∙ here) allowed))

  reopen_incident-IsLater :
      (w : World) (id actor name : String) (mail : Option String) (now : ℕ)
      → IsLater w.db (reopen_incident w id actor name mail now).0.db
  reopen_incident-IsLater w id actor name mail now =
      subst (IsLater w.db) (sym (reopen_incident-db j w id actor name mail now)) (
        transaction_keeps (IsLater w.db) (reopen_tx id actor name mail now) w.db
          (IsLater-same w.db w.db refl)
          (λ db' a h.
            let (e, here, res) = reopen_tx-writes id actor name mail now w.db db' a h in
            IsLater-update w.db db' id (with_reopened now) e (λ r. unfold with_reopened in refl)
              (λ r got. with_reopened-IsEvolution r now (only r a.incident (sym got ∙ here) res))))
    where
      only : (r a : IncidentRow) → some r ≡ some a → a.status ≡ resolved → r.status ≡ resolved
      only r a e h = ground arith

  edited-IsLater :
      (w : World) (auth : Auth) (id : String) (now : ℕ)
      → ((sev : IncidentSeverity)
          → IsLater w.db (change_severity w id sev auth.sub auth.email none now).0.db)
        × ((user : String) (reason : Option String)
            → IsLater w.db (assign_engineer w id user auth.sub auth.email reason now).0.db)
  unfolding change_severity assign_engineer
  edited-IsLater w auth id now = (
    λ sev.
        transaction_keeps (IsLater w.db) (change_severity_tx id sev auth.sub auth.email none now)
          w.db (IsLater-same w.db w.db refl)
          (λ db' a h.
            IsLater-update w.db db' id (with_severity sev now)
              (change_severity_tx-writes id sev auth.sub auth.email none now w.db db' a h)
              (λ r. unfold with_severity in refl) (λ r _. with_severity-IsEvolution r sev now)),
    λ user reason.
        transaction_keeps (IsLater w.db) (assign_engineer_tx id user auth.sub auth.email reason now)
          w.db (IsLater-same w.db w.db refl)
          (λ db' a h.
            IsLater-update w.db db' id (with_engineer user now)
              (assign_engineer_tx-writes id user auth.sub auth.email reason now w.db db' a h)
              (λ r. unfold with_engineer in refl) (λ r _. with_engineer-IsEvolution r user now)),
  )

  handle-IsLater :
      (w : World) (auth : Auth) (id : String) (request : Request) (now : ℕ)
      → IsSound w.db
      → IsLater w.db (handle j w auth id request now).0.db
  unfolding handle
  handle-IsLater w auth id (acknowledge note) now s =
      let p = status_params auth acknowledged note none in
      subst (λ v. IsLater w.db v.db) (sym (answer-world j (update_incident_status j w id p now)))
        (update_incident_status-IsLater w id p now s)
  handle-IsLater w auth id (patch_status status note summary) now s =
      let p = status_params auth status note summary in
      elim (Bool-cases (is_settable status)) [
        | inl e ↦
            rw (e, answer-world j (update_incident_status j w id p now))
              (update_incident_status-IsLater w id p now s)
        | inr e ↦ rw e (IsLater-same w.db w.db refl)
      ]
  handle-IsLater w auth id (severity sev) now s =
      subst (λ v. IsLater w.db v.db)
        (sym (answer-world j (change_severity w id sev auth.sub auth.email none now)))
        ((edited-IsLater w auth id now).0 sev)
  handle-IsLater w auth id (assign user reason) now s =
      subst (λ v. IsLater w.db v.db)
        (sym (answer-world j (assign_engineer w id user auth.sub auth.email reason now)))
        ((edited-IsLater w auth id now).1 user reason)
  handle-IsLater w auth id (comment message) now s =
      subst (λ v. IsLater w.db v.db)
        (sym (answer_added-world j (add_comment w id message auth.sub auth.email)))
        (IsLater-same w.db (add_comment w id message auth.sub auth.email).0.db
          (add_comment-incidents j w id message auth.sub auth.email))
  handle-IsLater w auth id reopen now s =
      subst (λ v. IsLater w.db v.db)
        (sym (answer-world j (reopen_incident w id auth.sub auth.email (some auth.email) now)))
        (reopen_incident-IsLater w id auth.sub auth.email (some auth.email) now)

  -- No request loses an incident, and each incident either keeps its status, or moves along an edge of
  -- the state machine, or is reopened after it was resolved. An acknowledgement date that is set stays
  -- as it is, through a reopening too, and so do the escalation level, the event count, the dedupe key
  -- and the creation date.
  pub handle-IsEvolution :
      (w : World) (auth : Auth) (id : String) (request : Request) (now : ℕ) (q : String)
      (r : IncidentRow)
      → IsSound w.db
      → get_incident w.db q ≡ some r
      → (r' : IncidentRow) × (get_incident (handle j w auth id request now).0.db q ≡ some r')
        × IsEvolution r r'
  handle-IsEvolution w auth id request now q r s h = handle-IsLater w auth id request now s q r h
