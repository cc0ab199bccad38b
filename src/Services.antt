-- ===== src/Services.antt =====
-- apps/api/src/modules/services/services.service.ts: the registry of services.

pub mod Update
pub mod Maintenance
use ops_mesh.Base.{
  ℕ, ◌+◌, Bool, true, false, not, Option, none, some, List, [], ◌∷◌, ◌++◌, String, ◌==◌, string_eq,
  if◌then◌else◌, ◌&&◌, ◌||◌, any, find, filter, map, or_else, is_some, take, length, sort_desc_by,
  update_where,
}
use ops_mesh.Types.{Environment, ServiceCriticality, ServiceStatus, unknown, maintenance}
use ops_mesh.Db.{
  Db, ServiceRow, HealthResultRow, EventRow, IncidentRow, AuditRow, AuditAction, AuditTarget,
  Metadata, service_created, service_updated, service_disabled, service_name, no_metadata,
}
use ops_mesh.Errors.{app, other, Result, ok, err, not_found_error, ◌>>=◌}
use ops_mesh.World.{text, transaction}
use ops_mesh.Auth.Keys.{is_service, require_service_exists, ensure_unique_service_name}
use ops_mesh.Sql.{Value, Sets, collect, assign, bound, bind_error}

pub record CreateServiceInput : Type 0 where
  pub name : String
  pub description : Option String
  pub environment : Environment
  pub owner_team_id : Option String
  pub health_check_url : Option String
  pub health_check_method : Option String
  pub health_check_timeout : Option ℕ
  pub health_check_interval : Option ℕ
  pub expected_status : Option ℕ
  pub criticality : ServiceCriticality
  pub sla_minutes : Option ℕ

-- The environment is in the schema, but not in the `columnMap`, so an update leaves it as it is.
pub record UpdateServiceInput : Type 0 where
  pub name : Option String
  pub description : Option String
  pub owner_team_id : Option String
  pub health_check_url : Option String
  pub health_check_method : Option String
  pub health_check_timeout : Option ℕ
  pub health_check_interval : Option ℕ
  pub expected_status : Option ℕ
  pub criticality : Option ServiceCriticality
  pub sla_minutes : Option ℕ
  pub environment : Option Environment
  pub status : Option ServiceStatus

-- The columns of `columnMap`.
pub data Column : Type 0 where
  name description owner_team_id health_check_url health_check_method : Column
  health_check_timeout health_check_interval expected_status criticality sla_minutes status : Column

-- The row of the audit log, whose metadata are the input.
abbrev pub service_audit : Db → AuditAction → String → String → Metadata → Db
service_audit db action id actor_id metadata = record db {
  audit =
      db.audit
      ++ record {
        actor_id = some actor_id;
        actor_email = none;
        action = action;
        target_type = AuditTarget.service;
        target_id = id;
        metadata = metadata;
      }
        ∷ [];
}

unfoldable pub get_service_by_id : Db → String → Option ServiceRow
get_service_by_id db id = find (is_service id) db.services

abbrev pub new_service : CreateServiceInput → String → ServiceRow
new_service input id = record {
  id = id;
  name = input.name;
  description = input.description;
  environment = input.environment;
  owner_team_id = input.owner_team_id;
  health_check_url = input.health_check_url;
  health_check_method = or_else input.health_check_method "GET";
  health_check_timeout = or_else input.health_check_timeout 5000;
  health_check_interval = or_else input.health_check_interval 60000;
  expected_status = or_else input.expected_status 200;
  criticality = input.criticality;
  sla_minutes = input.sla_minutes;
  status = unknown;
  deleted = false;
}

abbrev pub owner_exists : Db → Option String → Bool
owner_exists db none = true
owner_exists db (some team) = any (λ t. t.id == team) db.teams

-- The insertion, with the unique id and name of the table and its reference.
abbrev pub insert_service : Db → ServiceRow → Result Db
insert_service db s =
    if any (λ t. t.id == s.id || t.name == s.name) db.services
    then err (other "unique violation")
    else if owner_exists db s.owner_team_id
    then ok (record db { services = db.services ++ s ∷ [] })
    else err (other "foreign key violation")

abbrev pub created_in : ServiceRow → String → Result Db → Result (Db × ServiceRow)
created_in s actor_id (err e) = err e
created_in s actor_id (ok db) =
    ok (service_audit db service_created s.id actor_id (service_name s.name), s)

abbrev pub create_tx : ServiceRow → String → Db → Result (Db × ServiceRow)
create_tx s actor_id db = created_in s actor_id (insert_service db s)

unfoldable pub create_service :
    Db → CreateServiceInput → (actor_id id : String) → Db × Result ServiceRow
create_service db input actor_id id = elim (ensure_unique_service_name db input.name none) [
  | err e ↦ (db, err e)
  | ok _ ↦ transaction (create_tx (new_service input id) actor_id) db
]

abbrev as_text : Option String → Option Value
as_text none = none
as_text (some s) = some (Value.text s)

abbrev as_number : Option ℕ → Option Value
as_number none = none
as_number (some n) = some (Value.number n)

abbrev as_criticality : Option ServiceCriticality → Option Value
as_criticality none = none
as_criticality (some c) = some (Value.criticality c)

abbrev as_status : Option ServiceStatus → Option Value
as_status none = none
as_status (some s) = some (Value.status s)

-- `columnMap`, with the value of the input for each column.
abbrev pub columns_of : UpdateServiceInput → List (Column × Option Value)
columns_of i =
    (Column.name, as_text i.name)
    ∷ (Column.description, as_text i.description)
    ∷ (Column.owner_team_id, as_text i.owner_team_id)
    ∷ (Column.health_check_url, as_text i.health_check_url)
    ∷ (Column.health_check_method, as_text i.health_check_method)
    ∷ (Column.health_check_timeout, as_number i.health_check_timeout)
    ∷ (Column.health_check_interval, as_number i.health_check_interval)
    ∷ (Column.expected_status, as_number i.expected_status)
    ∷ (Column.criticality, as_criticality i.criticality)
    ∷ (Column.sla_minutes, as_number i.sla_minutes)
    ∷ (Column.status, as_status i.status)
    ∷ []

-- One assignment to a row; none where the value is of another type than the column.
abbrev pub set_column : Column → Value → ServiceRow → Option ServiceRow
set_column Column.name (Value.text v) r = some (record r { name = v })
set_column Column.description (Value.text v) r = some (record r { description = some v })
set_column Column.owner_team_id (Value.text v) r = some (record r { owner_team_id = some v })
set_column Column.health_check_url (Value.text v) r = some (record r { health_check_url = some v })
set_column Column.health_check_method (Value.text v) r = some (record r { health_check_method = v })
set_column Column.health_check_timeout (Value.number v) r =
    some (record r { health_check_timeout = v })
set_column Column.health_check_interval (Value.number v) r =
    some (record r { health_check_interval = v })
set_column Column.expected_status (Value.number v) r = some (record r { expected_status = v })
set_column Column.criticality (Value.criticality v) r = some (record r { criticality = v })
set_column Column.sla_minutes (Value.number v) r = some (record r { sla_minutes = some v })
set_column Column.status (Value.status v) r = some (record r { status = v })
set_column c v r = none

-- `UPDATE services SET … WHERE id = $1 AND deleted_at IS NULL RETURNING …`, on the row that it finds.
abbrev pub updated :
    Db → String → Option ServiceRow → Option ServiceRow → Result (Db × Option ServiceRow)
updated db id none row = ok (db, none)
updated db id (some old) none = err (other "invalid input syntax")
updated db id (some old) (some row) =
    ok (record db { services = update_where (is_service id) (λ _. row) db.services }, some row)

abbrev pub row_after : Sets Column → List Value → Option ServiceRow → Option ServiceRow
row_after sets params none = none
row_after sets params (some old) = assign set_column params sets old

abbrev pub executed :
    Db → String → Sets Column → List Value → Result (Unit {0}) → Result (Db × Option ServiceRow)
executed db id sets params (err e) = err e
executed db id sets params (ok _) =
    let old = get_service_by_id db id in updated db id old (row_after sets params old)

abbrev pub run_update : Db → String → Sets Column → List Value → Result (Db × Option ServiceRow)
run_update db id sets params = executed db id sets params (bound sets params)

-- `metadata` stands for the input that the audit row repeats.
abbrev pub audited :
    Db → String → String → Result (Db × Option ServiceRow) → Db × Result (Option ServiceRow)
audited db id actor_id (err e) = (db, err e)
audited db id actor_id (ok (db', row)) =
    (service_audit db' service_updated id actor_id no_metadata, ok row)

abbrev pub apply_columns :
    Db → String → String → Sets Column × List Value → Db × Result (Option ServiceRow)
apply_columns db id actor_id ([], params) = (db, ok (get_service_by_id db id))
apply_columns db id actor_id (first ∷ rest, params) =
    audited db id actor_id (run_update db id (first ∷ rest) (Value.text id ∷ params))

-- `if (input.name) await ensureUniqueServiceName(input.name, id)`
abbrev pub check_name : Db → Option String → String → Result (Unit {0})
check_name db none id = ok tt
check_name db (some new) id =
    if new == "" then ok tt else ensure_unique_service_name db new (some id)

abbrev pub refused_or {ℓ} : {A : Type ℓ} → Db → Result (Unit {0}) → Db × Result A → Db × Result A
refused_or db (err e) rest = (db, err e)
refused_or db (ok _) rest = rest

unfoldable pub update_service :
    Db → String → UpdateServiceInput → (actor_id : String) → Db × Result (Option ServiceRow)
update_service db id input actor_id = refused_or db (require_service_exists db id) (
    refused_or db (check_name db input.name id)
      (apply_columns db id actor_id (collect ([], []) (columns_of input))))

abbrev pub in_maintenance : ServiceRow → ServiceRow
in_maintenance s = record s { status = maintenance }

unfoldable pub disable_service : Db → String → (actor_id : String) → Db × Result (Unit {0})
disable_service db id actor_id =
    if any (is_service id) db.services
    then (
      service_audit
          (record db { services = update_where (is_service id) in_maintenance db.services })
          service_disabled id actor_id no_metadata,
      ok tt,
    )
    else (db, err (app (not_found_error (text ("Service " ∷ id ∷ " not found" ∷ [])))))
