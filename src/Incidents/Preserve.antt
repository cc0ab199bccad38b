-- ===== src/Incidents/Preserve.antt =====
-- Every request of the API keeps the incidents table sound.
use ops_mesh.Base.{
  ℕ, ◌≡◌, refl, sym, ◌∙◌, ap, subst, ◌≢◌, not, Option, none, some, List, [], ◌∷◌, String, ◌==◌,
  ◌&&◌, string_eq, find, update_where, arith, Bool-cases, Option-cases, inl, inr,
}
use ops_mesh.Types.{IncidentStatus, IncidentSeverity, acknowledged, resolved}
use ops_mesh.Shared.StateMachine.{status_eq}
use ops_mesh.Db.{Db, IncidentRow, has_id}
use ops_mesh.Errors.{Result, ok, err}
use ops_mesh.World.{World, Json, transaction, clear_dedupe_cache}
use ops_mesh.Incidents.Rows.{get_incident, update_incident, Answered}
use ops_mesh.Incidents.Keys.{find-and, find-has_id}
use ops_mesh.Incidents.Status.{
  UpdateStatusParams, with_status, write_status, update_status_tx, after_status,
  update_incident_status, status_done,
}
use ops_mesh.Incidents.Edit.{
  with_severity, change_severity_tx, change_severity, with_engineer, assign_engineer_tx,
  assign_engineer, add_comment, with_reopened, reopen_tx, reopen_incident, reopen_done,
}
use ops_mesh.Incidents.Routes.{
  Auth, Request, acknowledge, patch_status, severity, assign, comment, reopen, handle, Call,
  handle_all, is_settable, answer, answer_added, status_params,
}
use ops_mesh.Incidents.Consistent.{
  IsConsistent, IsSound, with_status-IsConsistent, with_severity-IsConsistent,
  with_engineer-IsConsistent, with_reopened-IsConsistent, IsSound-incidents, transaction_keeps,
  update_incident-IsSound, write_status-incidents, update_status_tx-ok,
}

-- What the query of updateIncidentStatus finds is the row with the id, and it is not resolved.
pub find_unresolved :
    (db : Db) (id : String) (a : IncidentRow)
    → IsSound db
    → find (λ r. has_id id r && not (r.status == resolved)) db.incidents ≡ some a
    → (get_incident db id ≡ some a) × (a.status ≢ resolved) × (a.id ≡ id)
unfolding get_incident
find_unresolved db id a s found =
    let q = λ (r : IncidentRow). not (r.status == resolved) in
    let split = sym (find-and id q db.incidents s.keyed) ∙ found in
    let here : find (has_id id) db.incidents ≡ some a = ground (arith, split) in
    (here, ground (arith, split), find-has_id id db.incidents a here)

write_status-IsSound :
    (db : Db) (id : String) (p : UpdateStatusParams) (now : ℕ) (a : IncidentRow)
    → IsSound db
    → find (λ r. has_id id r && not (r.status == resolved)) db.incidents ≡ some a
    → IsSound (write_status db a p now)
write_status-IsSound db id p now a s found =
    let (here, live, same) = find_unresolved db id a s found in
    IsSound-incidents (update_incident a.id (with_status p.status now) db) (write_status db a p now)
      (write_status-incidents db a p now)
      (update_incident-IsSound db a.id (with_status p.status now) s
        (λ r. unfold with_status in refl)
        (λ r got h.
          with_status-IsConsistent r p.status now
            (only r (sym got ∙ ap (get_incident db) same ∙ here)) h))
  where
    only : (r : IncidentRow) → some r ≡ some a → r.status ≢ resolved
    only r e = let (here, live, same) = find_unresolved db id a s found in ground (arith, live)

edited-IsSound :
    (db : Db) (id : String) (f : IncidentRow → IncidentRow)
    → IsSound db
    → ((r : IncidentRow) → (f r).id ≡ r.id)
    → ((r : IncidentRow) → IsConsistent r → IsConsistent (f r))
    → (db' : Db) → db'.incidents ≡ update_where (has_id id) f db.incidents
    → IsSound db'
edited-IsSound db id f s same keep db' e =
    IsSound-incidents (update_incident id f db) db' e
      (update_incident-IsSound db id f s same (λ r _ h. keep r h))

pub change_severity_tx-writes :
    (id : String) (sev : IncidentSeverity) (actor name : String) (mail : Option String) (now : ℕ)
    (db db' : Db) (a : Option IncidentRow)
    → change_severity_tx id sev actor name mail now db ≡ ok (db', a)
    → db'.incidents ≡ update_where (has_id id) (with_severity sev now) db.incidents
unfolding change_severity_tx
change_severity_tx-writes id sev actor name mail now db db' a h = ground arith

pub assign_engineer_tx-writes :
    (id user actor name : String) (reason : Option String) (now : ℕ) (db db' : Db)
    (a : Option IncidentRow)
    → assign_engineer_tx id user actor name reason now db ≡ ok (db', a)
    → db'.incidents ≡ update_where (has_id id) (with_engineer user now) db.incidents
unfolding assign_engineer_tx
assign_engineer_tx-writes id user actor name reason now db db' a h = ground arith

pub reopen_tx-writes :
    (id actor name : String) (mail : Option String) (now : ℕ) (db db' : Db) (a : Answered)
    → reopen_tx id actor name mail now db ≡ ok (db', a)
    → (db'.incidents ≡ update_where (has_id id) (with_reopened now) db.incidents)
      × (get_incident db id ≡ some a.incident)
      × (a.incident.status ≡ resolved)
unfolding reopen_tx
reopen_tx-writes id actor name mail now db db' a h = ground arith

module _ (j : Json) where
  clear_dedupe_cache-db :
      (w : World) (key id : String) (now : ℕ) → (clear_dedupe_cache j w key id now).db ≡ w.db
  unfolding clear_dedupe_cache
  clear_dedupe_cache-db w key id now = ground arith

  pub after_status-db :
      (w : World) (r : IncidentRow) (status : IncidentStatus) (now : ℕ)
      → (after_status j w r status now).db ≡ w.db
  unfolding after_status
  after_status-db w r status now = elim (Option-cases r.dedupe_key) [
    | inl e ↦ ground (arith, e)
    | inr (key, e) ↦ ground (arith, e, clear_dedupe_cache-db w key r.id now)
  ]

  -- The database after a status request is the one that its transaction leaves.
  pub update_incident_status-db :
      (w : World) (id : String) (p : UpdateStatusParams) (now : ℕ)
      → (update_incident_status j w id p now).0.db
        ≡ (transaction (update_status_tx id p now) w.db).0
  unfolding update_incident_status
  update_incident_status-db w id p now = go (transaction (update_status_tx id p now) w.db)
    where
      go : (d : Db × Result Answered) → (status_done j w p.status now d).0.db ≡ d.0
      go (db', err e) = refl
      go (db', ok a) = after_status-db (record w { db = db' }) a.incident p.status now

  pub reopen_incident-db :
      (w : World) (id actor name : String) (mail : Option String) (now : ℕ)
      → (reopen_incident w id actor name mail now).0.db
        ≡ (transaction (reopen_tx id actor name mail now) w.db).0
  unfolding reopen_incident
  reopen_incident-db w id actor name mail now =
      go (transaction (reopen_tx id actor name mail now) w.db)
    where
      go : (d : Db × Result Answered) → (reopen_done w d).0.db ≡ d.0
      go (db', err e) = refl
      go (db', ok a) = refl

  update_incident_status-IsSound :
      (w : World) (id : String) (p : UpdateStatusParams) (now : ℕ)
      → IsSound w.db
      → IsSound (update_incident_status j w id p now).0.db
  update_incident_status-IsSound w id p now s =
      subst IsSound (sym (update_incident_status-db w id p now)) (
        transaction_keeps IsSound (update_status_tx id p now) w.db s (λ db' a h.
          let (found, _, written, _) = update_status_tx-ok id p now w.db db' a h in
          subst IsSound (sym written) (write_status-IsSound w.db id p now a.incident s found)))

  change_severity-IsSound :
      (w : World) (id : String) (sev : IncidentSeverity) (actor name : String)
      (mail : Option String) (now : ℕ)
      → IsSound w.db
      → IsSound (change_severity w id sev actor name mail now).0.db
  unfolding change_severity
  change_severity-IsSound w id sev actor name mail now s =
      transaction_keeps IsSound (change_severity_tx id sev actor name mail now) w.db s (λ db' a h.
        edited-IsSound w.db id (with_severity sev now) s (λ r. unfold with_severity in refl)
          (λ r. with_severity-IsConsistent r sev now) db'
          (change_severity_tx-writes id sev actor name mail now w.db db' a h))

  assign_engineer-IsSound :
      (w : World) (id user actor name : String) (reason : Option String) (now : ℕ)
      → IsSound w.db
      → IsSound (assign_engineer w id user actor name reason now).0.db
  unfolding assign_engineer
  assign_engineer-IsSound w id user actor name reason now s =
      transaction_keeps IsSound (assign_engineer_tx id user actor name reason now) w.db s
        (λ db' a h.
          edited-IsSound w.db id (with_engineer user now) s (λ r. unfold with_engineer in refl)
            (λ r. with_engineer-IsConsistent r user now) db'
            (assign_engineer_tx-writes id user actor name reason now w.db db' a h))

  reopen_incident-IsSound :
      (w : World) (id actor name : String) (mail : Option String) (now : ℕ)
      → IsSound w.db
      → IsSound (reopen_incident w id actor name mail now).0.db
  reopen_incident-IsSound w id actor name mail now s =
      subst IsSound (sym (reopen_incident-db w id actor name mail now)) (
        transaction_keeps IsSound (reopen_tx id actor name mail now) w.db s (λ db' a h.
          edited-IsSound w.db id (with_reopened now) s (λ r. unfold with_reopened in refl)
            (λ r. with_reopened-IsConsistent r now) db'
            (reopen_tx-writes id actor name mail now w.db db' a h).0))

  pub add_comment-incidents :
      (w : World) (id message actor name : String)
      → (add_comment w id message actor name).0.db.incidents ≡ w.db.incidents
  unfolding add_comment
  add_comment-incidents w id message actor name = ground arith

  pub answer-world : (r : World × Result (Option IncidentRow)) → (answer r).0 ≡ r.0
  answer-world (w, ok r) = refl
  answer-world (w, err e) = refl

  pub answer_added-world : (r : World × Result (Unit {0})) → (answer_added r).0 ≡ r.0
  answer_added-world (w, ok r) = refl
  answer_added-world (w, err e) = refl

  pub handle-IsSound :
      (w : World) (auth : Auth) (id : String) (request : Request) (now : ℕ)
      → IsSound w.db
      → IsSound (handle j w auth id request now).0.db
  unfolding handle
  handle-IsSound w auth id (acknowledge note) now s =
      let r = update_incident_status j w id (status_params auth acknowledged note none) now in
      subst (λ v. IsSound v.db) (sym (answer-world r))
        (update_incident_status-IsSound w id (status_params auth acknowledged note none) now s)
  handle-IsSound w auth id (patch_status status note summary) now s =
      let r = update_incident_status j w id (status_params auth status note summary) now in
      elim (Bool-cases (is_settable status)) [
        | inl e ↦
            rw (e, answer-world r)
              (update_incident_status-IsSound w id (status_params auth status note summary) now s)
        | inr e ↦ rw e s
      ]
  handle-IsSound w auth id (severity sev) now s =
      subst (λ v. IsSound v.db)
        (sym (answer-world (change_severity w id sev auth.sub auth.email none now)))
        (change_severity-IsSound w id sev auth.sub auth.email none now s)
  handle-IsSound w auth id (assign user reason) now s =
      subst (λ v. IsSound v.db)
        (sym (answer-world (assign_engineer w id user auth.sub auth.email reason now)))
        (assign_engineer-IsSound w id user auth.sub auth.email reason now s)
  handle-IsSound w auth id (comment message) now s =
      let r = add_comment w id message auth.sub auth.email in
      subst (λ v. IsSound v.db) (sym (answer_added-world r))
        (IsSound-incidents w.db r.0.db (add_comment-incidents w id message auth.sub auth.email) s)
  handle-IsSound w auth id reopen now s =
      subst (λ v. IsSound v.db)
        (sym (answer-world (reopen_incident w id auth.sub auth.email (some auth.email) now)))
        (reopen_incident-IsSound w id auth.sub auth.email (some auth.email) now s)

  -- Whatever requests come in, in any order and for any incidents, the incidents table stays sound: no
  -- two incidents share an id, and every incident has the priority of its severity, a resolution date
  -- exactly while it is resolved, and an acknowledgement date while it is acknowledged.
  pub handle_all-IsSound :
      (w : World) (calls : List Call) → IsSound w.db → IsSound (handle_all j w calls).db
  unfolding handle_all
  handle_all-IsSound w [] s = s
  handle_all-IsSound w (c ∷ calls) s =
      handle_all-IsSound (handle j w c.auth c.id c.request c.now).0 calls
        (handle-IsSound w c.auth c.id c.request c.now s)
