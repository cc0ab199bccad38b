-- ===== src/Incidents/Lifecycle.antt =====
-- How the requests of the API move one incident through its lifecycle.
use mathlib.Core.Option
use ops_mesh.Base.{
  ℕ, ◌≡◌, refl, ◌∙◌, ap, true, false, not, Option, none, some, List, [], ◌∷◌, String, ◌==◌,
  string_eq, if◌then◌else◌, find, update_where, arith, Bool-cases, Option-cases, eq_iff, inl, inr,
  ◌⊎◌,
}
use ops_mesh.Types.{IncidentStatus, resolved}
use ops_mesh.Shared.StateMachine.{
  status_eq, status_beq_iff, is_valid_transition, incident_transitions, validate_status_transition,
}
use ops_mesh.Db.{Db, IncidentRow, has_id}
use ops_mesh.Errors.{Thrown, app, Result, ok, err, not_found_error, conflict_error}
use ops_mesh.World.{World, Json}
use ops_mesh.World.Transaction.{transaction-result}
use ops_mesh.Incidents.Rows.{get_incident, Answered}
use ops_mesh.Incidents.Keys.{find-and, find-has_id}
use ops_mesh.Incidents.Status.{
  UpdateStatusParams, with_status, write_status, update_status_tx, update_incident_status,
  transition_error, status_done,
}
use ops_mesh.Incidents.Moved.{IsMoved, with_status-IsMoved}
use ops_mesh.Incidents.Consistent.{IsSound, write_status-incidents}
use ops_mesh.Incidents.Preserve.{after_status-db}

find-update_id :
    (id : String) (f : IncidentRow → IncidentRow) (p : String)
    → ((r : IncidentRow) → (f r).id ≡ r.id)
    → (rs : List IncidentRow)
    → find (has_id p) (update_where (has_id id) f rs)
      ≡ (if p == id then Option.map f (find (has_id p) rs) else find (has_id p) rs)
find-update_id id f p keep [] = ground arith
find-update_id id f p keep (r ∷ rs) =
    ground
      (arith, keep r, find-update_id id f p keep rs, eq_iff r.id id, eq_iff r.id p, eq_iff p id)

-- The row of the table after a write to the row with its id.
pub get_incident-update_where :
    (db db' : Db) (id : String) (f : IncidentRow → IncidentRow) (p : String)
    → db'.incidents ≡ update_where (has_id id) f db.incidents
    → ((r : IncidentRow) → (f r).id ≡ r.id)
    → get_incident db' p ≡ (if p == id then Option.map f (get_incident db p) else get_incident db p)
unfolding get_incident
get_incident-update_where db db' id f p e keep =
    ap (find (has_id p)) e ∙ find-update_id id f p keep db.incidents

module _ (db : Db) (id : String) (p : UpdateStatusParams) (now : ℕ) where
  -- What the transaction of a status request comes to, read off the row with the id.
  abbrev pub expected : Option IncidentRow → Result (Db × Answered)
  expected none = err (app (not_found_error "Incident not found or already resolved"))
  expected (some r) =
      if r.status == resolved
      then err (app (not_found_error "Incident not found or already resolved"))
      else if is_valid_transition r.status p.status
      then ok (write_status db r p now, record { incident = r; answer = some r })
      else err (
          app (conflict_error (transition_error r.status p.status (incident_transitions r.status))))

  pub update_status_tx-expected :
      IsSound db → update_status_tx id p now db ≡ expected (get_incident db id)
  unfolding update_status_tx get_incident validate_status_transition
  update_status_tx-expected s =
      let q = λ (r : IncidentRow). not (r.status == resolved) in
      ground (arith, find-and id q db.incidents s.keyed)

with_status-id :
    (status : IncidentStatus) (now : ℕ) (r : IncidentRow) → (with_status status now r).id ≡ r.id
unfolding with_status
with_status-id status now r = refl

module _ (j : Json) where
  refused :
      (w : World) (id : String) (p : UpdateStatusParams) (now : ℕ) (e : Thrown)
      → update_status_tx id p now w.db ≡ err e
      → update_incident_status j w id p now ≡ (w, err e)
  unfolding update_incident_status
  refused w id p now e h =
      ap (status_done j w p.status now)
        (transaction-result (update_status_tx id p now) w.db (err e) h)

  done :
      (w : World) (id : String) (p : UpdateStatusParams) (now : ℕ) (db' : Db) (a : Answered)
      → update_status_tx id p now w.db ≡ ok (db', a)
      → ((update_incident_status j w id p now).0.db ≡ db')
        × ((update_incident_status j w id p now).1 ≡ ok a.answer)
  unfolding update_incident_status
  done w id p now db' a h =
      let e =
        ap (status_done j w p.status now)
          (transaction-result (update_status_tx id p now) w.db (ok (db', a)) h) in
      (
        ap (λ r. r.0.db) e ∙ after_status-db j (record w { db = db' }) a.incident p.status now,
        ap (λ r. r.1) e,
      )

  -- The outcomes of a request, the new row as `with_status` writes it.
  status_outcomes :
      (w : World) (id : String) (p : UpdateStatusParams) (now : ℕ) (q : String)
      → IsSound w.db
      → (let r = update_incident_status j w id p now in
          ((r ≡ (w, err (app (not_found_error "Incident not found or already resolved"))))
            × ((get_incident w.db id ≡ none)
                ⊎ ((row : IncidentRow) × (get_incident w.db id ≡ some row)
                    × (row.status ≡ resolved))))
          ⊎ ((row : IncidentRow) × (get_incident w.db id ≡ some row)
              × (is_valid_transition row.status p.status ≡ false)
              × (r ≡ (
                w,
                err (
                    app (
                      conflict_error
                        (transition_error row.status p.status (incident_transitions row.status)))),
              )))
          ⊎ ((row : IncidentRow) × (get_incident w.db id ≡ some row)
              × (is_valid_transition row.status p.status ≡ true)
              × (get_incident r.0.db q
                  ≡ (if q == id then some (with_status p.status now row) else get_incident w.db q))
              × (r.1 ≡ ok (some row))))
  status_outcomes w id p now q s = elim (Option-cases (get_incident w.db id)) [
    | inl h ↦ inl (refused w id p now _ (e ∙ rw h refl), inl h)
    | inr (row, h) ↦ elim (Bool-cases (row.status == resolved)) [
      | inl res ↦ inl (
        refused w id p now _ (e ∙ rw (h, res) refl),
        inr (row, h, (status_beq_iff row.status resolved).0 res),
      )
      | inr live ↦ elim (Bool-cases (is_valid_transition row.status p.status)) [
        | inr bad ↦ inr (inl (row, h, bad, refused w id p now _ (e ∙ rw (h, live, bad) refl)))
        | inl good ↦
            let (at, says) =
              done w id p now (write_status w.db row p now)
                (record { incident = row; answer = some row }) (e ∙ rw (h, live, good) refl) in
            let same = find-has_id id w.db.incidents row (unfold get_incident in h) in
            inr (
              inr (
                row,
                h,
                good,
                ap (λ d. get_incident d q) at ∙ at_id q row same ∙ stored q row h,
                says,
              ))
      ]
    ]
  ]
    where
      e : update_status_tx id p now w.db ≡ expected w.db id p now (get_incident w.db id)
      e = update_status_tx-expected w.db id p now s

      at_id :
          (q : String) (row : IncidentRow)
          → row.id ≡ id
          → get_incident (write_status w.db row p now) q ≡ (
              if q == id
              then Option.map (with_status p.status now) (get_incident w.db q)
              else get_incident w.db q)
      at_id q row same =
          get_incident-update_where w.db (write_status w.db row p now) id (with_status p.status now)
            q
            (write_status-incidents w.db row p now
              ∙ ap (λ i. update_where (has_id i) (with_status p.status now) w.db.incidents) same)
            (with_status-id p.status now)

      stored :
          (q : String) (row : IncidentRow)
          → get_incident w.db id ≡ some row
          → (if q == id
              then Option.map (with_status p.status now) (get_incident w.db q)
              else get_incident w.db q)
            ≡ (if q == id then some (with_status p.status now row) else get_incident w.db q)
      stored q row h = elim (Bool-cases (q == id)) [
        | inl e ↦ rw e (
            ap (Option.map (with_status p.status now))
              (ap (get_incident w.db) ((eq_iff q id).0 e) ∙ h))
        | inr e ↦ rw e refl
      ]

  -- A status request ends in one of three ways. Without an unresolved incident of that id it answers
  -- 404, and where the state machine does not allow the change 409 with the allowed statuses; both
  -- leave everything as it was. Otherwise the row of that id, and no other, gets the requested status
  -- and the time of its update: ACKNOWLEDGED sets the time of the acknowledgement if there was none,
  -- RESOLVED the time of the resolution, and all else is kept; but the answer shows the row as it was
  -- before the change.
  pub update_incident_status_lem :
      (w : World) (id : String) (p : UpdateStatusParams) (now : ℕ) (q : String)
      → IsSound w.db
      → (let r = update_incident_status j w id p now in
          ((r ≡ (w, err (app (not_found_error "Incident not found or already resolved"))))
            × ((get_incident w.db id ≡ none)
                ⊎ ((row : IncidentRow) × (get_incident w.db id ≡ some row)
                    × (row.status ≡ resolved))))
          ⊎ ((row : IncidentRow) × (get_incident w.db id ≡ some row)
              × (is_valid_transition row.status p.status ≡ false)
              × (r ≡ (
                w,
                err (
                    app (
                      conflict_error
                        (transition_error row.status p.status (incident_transitions row.status)))),
              )))
          ⊎ ((row : IncidentRow) × (get_incident w.db id ≡ some row)
              × (is_valid_transition row.status p.status ≡ true)
              × ((row' : IncidentRow) × IsMoved p.status now row row'
                  × (get_incident r.0.db q ≡ (if q == id then some row' else get_incident w.db q)))
              × (r.1 ≡ ok (some row))))
  update_incident_status_lem w id p now q s = elim (status_outcomes w id p now q s) [
    | inl missing ↦ inl missing
    | inr (inl refused) ↦ inr (inl refused)
    | inr (inr (row, h, good, stored, says)) ↦ inr (
        inr (
          row,
          h,
          good,
          (with_status p.status now row, with_status-IsMoved p.status now row, stored),
          says,
        ))
  ]
