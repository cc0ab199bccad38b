-- ===== src/Escalation/Step.antt =====
-- escalation.worker.ts: resolveTarget, escalateOnce and poll.
use ops_mesh.Base.{
  ℕ, ◌+◌, Bool, true, false, Option, none, some, List, [], ◌∷◌, ◌++◌, String, ◌==◌, string_eq,
  if◌then◌else◌, ◌&&◌, find, any, or_else,
}
use ops_mesh.Types.{NotificationChannel, open_, escalated}
use ops_mesh.Shared.StateMachine.{status_eq}
use ops_mesh.Db.{
  Db, IncidentRow, StepRow, TargetType, user, team, schedule, escalation, incident_escalated,
  has_id, TimelineType,
}
use ops_mesh.Errors.{other, Result, ok, err}
use ops_mesh.World.{World, emit, incident_updated, transaction, text}
use ops_mesh.Incidents.Rows.{update_incident, insert_timeline, write_audit}
use ops_mesh.Notify.{queued}
use ops_mesh.Processor.Create.{has_user_id, is_current}
use ops_mesh.Escalation.{Runtime, steps_for_incident, next_step, find_due_incidents}

pub record Target : Type 0 where
  pub id : Option String
  pub name : String
  pub email : Option String

unfoldable pub resolve_target : Db → TargetType → String → ℕ → Option Target
resolve_target db user target_id now =
    elim (find (λ u. u.id == target_id && u.is_active) db.users) [
      | none ↦ none
      | some u ↦ some (record { id = some u.id; name = u.name; email = some u.email })
    ]
resolve_target db team target_id now = elim (find (λ t. t.id == target_id) db.teams) [
  | none ↦ none
  | some t ↦ some (record { id = none; name = text ("team:" ∷ t.name ∷ []); email = none })
]
resolve_target db schedule target_id now =
    elim (find
      (λ s.
        s.schedule_id == target_id
        && is_current now s
        && any (λ sc. sc.id == target_id) db.schedules
        && any (has_user_id s.user_id) db.users)
      db.shifts) [
        | none ↦ none
        | some s ↦ elim (find (has_user_id s.user_id) db.users) [
          | none ↦ none
          | some u ↦ some (record { id = some u.id; name = u.name; email = some u.email })
        ]
      ]

abbrev pub target_name : StepRow → Option Target → String
target_name step none = step.target_id
target_name step (some t) = t.name

abbrev pub target_id : Option Target → Option String
target_id none = none
target_id (some t) = t.id

abbrev pub recipient_of : StepRow → Option Target → String
recipient_of step none = step.target_id
recipient_of step (some t) = or_else t.email step.target_id

-- `target?.id ?? incident.assigned_engineer_id`
abbrev pub next_engineer : Option String → Option String → Option String
next_engineer none current = current
next_engineer (some id) current = some id

-- The row after the update: the level counts on from what the table holds, the engineer comes from the
-- target or from the row that the poll read.
unfoldable pub raised : Option String → ℕ → IncidentRow → IncidentRow
raised engineer now r = record r {
  escalation_level = r.escalation_level + 1;
  assigned_engineer_id = engineer;
  status = if r.status == open_ then escalated else r.status;
  updated_at = now;
}

abbrev type_text : TargetType → String
type_text user = "USER"
type_text team = "TEAM"
type_text schedule = "SCHEDULE"

module _ (rt : Runtime) where
  abbrev pub enqueue_steps :
      Db → IncidentRow → StepRow → String → (ℕ → String) → ℕ → List NotificationChannel → Db
  enqueue_steps db incident step to ids now [] = db
  enqueue_steps db incident step to ids now (channel ∷ channels) =
      enqueue_steps
        (record db {
          notifications =
              db.notifications
              ++ queued (ids 0) incident.id channel to (text ("[ESCALATED] " ∷ incident.title ∷ []))
                  (text
                    ("Incident " ∷ incident.id ∷ " escalated to level " ∷ rt.show step.level ∷ []))
                  now
                ∷ [];
        })
        incident step to (λ n. ids (1 + n)) now channels

  -- What the transaction writes.
  unfoldable pub write_step : Db → IncidentRow → StepRow → Option Target → (ℕ → String) → ℕ → Db
  unfolding raised
  write_step db incident step target ids now =
      let db1 = record db {
        executions =
            db.executions
            ++ record {
              incident_id = incident.id;
              policy_id = some step.policy_id;
              step_level = step.level;
              target_type = step.target_type;
              target_id = step.target_id;
              target_name = target_name step target;
            }
              ∷ [];
      } in
      let db2 =
        update_incident incident.id
          (raised (next_engineer (target_id target) incident.assigned_engineer_id) now) db1 in
      let db3 =
        insert_timeline db2 incident.id TimelineType.escalated
          (text
            ("Escalated to level " ∷ rt.show step.level ∷ " - " ∷ type_text step.target_type ∷ []))
          (target_id target) (some (target_name step target))
          (escalation step.level step.target_type none) in
      let db4 =
        write_audit db3 none none incident_escalated incident.id
          (escalation step.level step.target_type (some step.target_id)) in
      enqueue_steps db4 incident step (recipient_of step target) ids now step.notify_channels

  -- The execution refers to the incident, so a transaction for one that is gone fails.
  unfoldable pub escalate_tx :
      IncidentRow → StepRow → Option Target → (ℕ → String) → ℕ → Db → Result (Db × Unit {0})
  escalate_tx incident step target ids now db =
      if any (has_id incident.id) db.incidents
      then ok (write_step db incident step target ids now, tt)
      else err (other "foreign key violation")

  abbrev pub announced : World → IncidentRow → Db × Result (Unit {0}) → World × Result Bool
  announced w incident (db, err e) = (record w { db = db }, err e)
  announced w incident (db, ok _) =
      (emit (record w { db = db }) (incident_updated incident.id (some escalated)), ok true)

  -- With the step that is next, if there is one.
  abbrev pub stepped : World → IncidentRow → (ℕ → String) → ℕ → Option StepRow → World × Result Bool
  stepped w incident ids now none = (w, ok false)
  stepped w incident ids now (some step) =
      let target = resolve_target w.db step.target_type step.target_id now in
      announced w incident (transaction (escalate_tx incident step target ids now) w.db)

  unfoldable pub escalate_once : World → IncidentRow → (ℕ → String) → ℕ → World × Result Bool
  escalate_once w incident ids now =
      stepped w incident ids now (next_step (steps_for_incident rt w.db incident) incident)

  abbrev pub add_done : ℕ → Result Bool → ℕ
  add_done n (ok true) = n + 1
  add_done n (ok false) = n
  add_done n (err e) = n

  -- An error of one incident is logged, and the next one is tried. `ids k n` is the n-th id of the k-th.
  unfoldable pub escalate_all : World → List IncidentRow → (ℕ → ℕ → String) → ℕ → ℕ → World × ℕ
  escalate_all w [] ids now n = (w, n)
  escalate_all w (incident ∷ due) ids now n =
      let (w', r) = escalate_once w incident (ids 0) now in
      escalate_all w' due (λ k. ids (1 + k)) now (add_done n r)

  unfoldable pub poll : World → (ℕ → ℕ → String) → ℕ → World × ℕ
  poll w ids now = escalate_all w (find_due_incidents rt w.db now) ids now 0
