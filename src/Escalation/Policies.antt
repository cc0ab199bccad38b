-- ===== src/Escalation/Policies.antt =====
-- apps/api/src/modules/escalation/escalation.routes.ts: the policies and their steps. The random ids of
-- the steps are left out.
use ops_mesh.Base.{
  ℕ, Bool, true, false, not, Option, none, some, List, [], ◌∷◌, ◌++◌, String, ◌==◌, string_eq,
  nat_eq, if◌then◌else◌, ◌&&◌, ◌||◌, any, filter, map, sort_by, sort_desc_by,
}
use ops_mesh.Types.{NotificationChannel}
use ops_mesh.Db.{ServiceRow, Db, PolicyRow, StepRow, ExecutionRow, TargetType}
use ops_mesh.Errors.{app, other, Result, ok, err, not_found_error}
use ops_mesh.World.{transaction}
use ops_mesh.Escalation.{is_text}

pub record NewStep : Type 0 where
  pub level : ℕ
  pub delay_minutes : ℕ
  pub target_type : TargetType
  pub target_id : String
  pub notify_channels : List NotificationChannel

pub record NewPolicy : Type 0 where
  pub name : String
  pub description : Option String
  pub service_id : Option String
  pub team_id : Option String
  pub steps : List NewStep

abbrev pub step_row : String → NewStep → StepRow
step_row policy_id s = record {
  policy_id = policy_id;
  level = s.level;
  delay_minutes = s.delay_minutes;
  target_type = s.target_type;
  target_id = s.target_id;
  notify_channels = s.notify_channels;
}

abbrev pub policy_row : NewPolicy → String → ℕ → PolicyRow
policy_row p id now = record {
  id = id;
  name = p.name;
  description = p.description;
  service_id = p.service_id;
  team_id = p.team_id;
  updated_at = now;
}

abbrev pub references : Db → NewPolicy → Bool
references db p =
    (elim p.service_id [ none ↦ true | some id ↦ any (λ s. s.id == id) db.services ])
    && (elim p.team_id [ none ↦ true | some id ↦ any (λ t. t.id == id) db.teams ])

-- The index that allows one policy for a service.
abbrev pub is_bound_to : Option String → PolicyRow → Bool
is_bound_to none p = false
is_bound_to (some id) p = is_text id p.service_id

abbrev pub insert_policy : Db → NewPolicy → String → ℕ → Result Db
insert_policy db p id now =
    if any (λ q. q.id == id || is_bound_to p.service_id q) db.policies
    then err (other "unique violation")
    else if references db p
    then ok (record db { policies = db.policies ++ policy_row p id now ∷ [] })
    else err (other "foreign key violation")

abbrev pub is_level : String → ℕ → StepRow → Bool
is_level policy_id level s = s.policy_id == policy_id && s.level == level

-- The loop over the steps, whose levels the table keeps apart.
unfoldable pub insert_steps : Db → String → List NewStep → Result Db
insert_steps db policy_id [] = ok db
insert_steps db policy_id (s ∷ steps) =
    let rest =
      insert_steps (record db { steps = db.steps ++ step_row policy_id s ∷ [] }) policy_id steps in
    if any (is_level policy_id s.level) db.steps then err (other "unique violation") else rest

abbrev pub with_steps : String → List NewStep → Result Db → Result Db
with_steps id steps (err e) = err e
with_steps id steps (ok db) = insert_steps db id steps

abbrev pub committed : String → Result Db → Result (Db × String)
committed id (err e) = err e
committed id (ok db) = ok (db, id)

abbrev pub policy_tx : NewPolicy → String → ℕ → Db → Result (Db × String)
policy_tx p id now db = committed id (with_steps id p.steps (insert_policy db p id now))

-- POST /
unfoldable pub create_policy : Db → NewPolicy → (id : String) → ℕ → Db × Result String
create_policy db p id now = transaction (policy_tx p id now) db

abbrev pub without_policy : String → ExecutionRow → ExecutionRow
without_policy id e = if is_text id e.policy_id then record e { policy_id = none } else e

-- DELETE /:id, with what the references of the other tables say.
unfoldable pub delete_policy : Db → String → Db × Result (Unit {0})
delete_policy db id =
    if any (λ p. p.id == id) db.policies
    then (
      record db {
        policies = filter (λ p. not (p.id == id)) db.policies;
        steps = filter (λ s. not (s.policy_id == id)) db.steps;
        executions = map (without_policy id) db.executions;
      },
      ok tt,
    )
    else (db, err (app (not_found_error "Policy not found")))

abbrev pub newest {ℓ} : {A : Type ℓ} → (A → ℕ) → List A → Option A
newest at rows = elim (sort_desc_by at rows) [ [] ↦ none | x ∷ _ ↦ some x ]

abbrev pub owns : String → PolicyRow → ServiceRow → Bool
owns service_id p s =
    s.id == service_id
    && (elim s.owner_team_id [ none ↦ false | some team ↦ is_text team p.team_id ])

abbrev pub owner_is : Db → String → PolicyRow → Bool
owner_is db service_id p = any (owns service_id p) db.services

abbrev pub or_team_policy : Db → String → Option PolicyRow → Option PolicyRow
or_team_policy db service_id (some p) = some p
or_team_policy db service_id none =
    newest (λ p. p.updated_at) (filter (owner_is db service_id) db.policies)

-- A service's own policy, else the newest of its team.
unfoldable pub resolve_policy_for_service : Db → String → Option PolicyRow
resolve_policy_for_service db service_id =
    or_team_policy db service_id
      (newest (λ p. p.updated_at) (filter (λ p. is_text service_id p.service_id) db.policies))

unfoldable pub load_policy_steps : Db → String → List StepRow
load_policy_steps db policy_id =
    sort_by (λ s. s.level) (filter (λ s. s.policy_id == policy_id) db.steps)
