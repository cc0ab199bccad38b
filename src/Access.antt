-- ===== src/Access.antt =====
-- The writing routes of six routers of apps/api/src/modules that ask for a role: teams.routes.ts,
-- services.routes.ts, api-keys.routes.ts, oncall.routes.ts, escalation.routes.ts and
-- notifications.routes.ts, each behind the limit of app.ts and its guards, `requireAuth` of its router
-- and `requireRole` of the route; and POST /register of auth.routes.ts, behind the limit and its schema.
-- The bodies of the six are those that their schemas let through. The routes of the incidents are in
-- Incidents.Routes, that of the events in Ingest.Route.
pub mod Guarded
use ops_mesh.Base.{
  ℕ, Bool, true, Option, none, some, List, [], ◌∷◌, String, or_else, leb, ◌&&◌, if◌then◌else◌,
}
use ops_mesh.World.{World}
use ops_mesh.RateLimit.{RateLimitOptions, Passage, admitted, refused, rate_limiter}
use ops_mesh.Types.{UserRole, admin, engineer}
use ops_mesh.Db.{Db, ScheduleRow}
use ops_mesh.Errors.{app, Result, ok, err, validation_error}
use ops_mesh.Auth.{Jwt, JwtPayload, Headers, require_auth, require_role}
use ops_mesh.Auth.Keys.{NewKey, create_key, revoke_key}
use ops_mesh.Auth.Users.{
  Crypt, RegisterInput, AuthResult, register, register_user, update_user_role, set_user_active,
}
use ops_mesh.Services.{
  CreateServiceInput, UpdateServiceInput, create_service, update_service, disable_service,
}
use ops_mesh.OnCall.Routes.{create_schedule, delete_schedule}
use ops_mesh.Escalation.Policies.{NewPolicy, create_policy, delete_policy}
use ops_mesh.Notify.Service.{retry_notification}
use ops_mesh.Teams.{create_team, update_team}

-- modules/teams/teams.routes.ts, with random ids
pub data TeamsRequest : Type 0 where
  post_team : (name : String) (description : Option String) (id : String) → TeamsRequest
  patch_team : (id : String) (name description : Option String) → TeamsRequest
  post_user : RegisterInput → (id salt : String) → TeamsRequest
  patch_role : (id : String) → UserRole → TeamsRequest
  patch_active : (id : String) → Bool → TeamsRequest

-- modules/services/services.routes.ts
pub data ServicesRequest : Type 0 where
  post_service : CreateServiceInput → (id : String) → ServicesRequest
  patch_service : (id : String) → UpdateServiceInput → ServicesRequest
  post_disable : (id : String) → ServicesRequest

-- modules/apikeys/api-keys.routes.ts
pub data KeysRequest : Type 0 where
  post_key : NewKey → KeysRequest
  post_revoke : (id : String) → KeysRequest

-- modules/oncall/oncall.routes.ts
pub data SchedulesRequest : Type 0 where
  post_schedule : ScheduleRow → SchedulesRequest
  delete_schedules : (id : String) → SchedulesRequest

-- modules/escalation/escalation.routes.ts
pub data PoliciesRequest : Type 0 where
  post_policy : NewPolicy → (id : String) → PoliciesRequest
  delete_policies : (id : String) → PoliciesRequest

-- modules/notifications/notifications.routes.ts
pub data NotificationsRequest : Type 0 where
  post_retry : (id : String) → NotificationsRequest

-- The routers, as app.ts mounts them.
pub data Request : Type 0 where
  teams : TeamsRequest → Request
  services : ServicesRequest → Request
  keys : KeysRequest → Request
  schedules : SchedulesRequest → Request
  policies : PoliciesRequest → Request
  notifications : NotificationsRequest → Request

-- The caller of a request: its address, if it has one, and the member that the limit counts it under.
pub record Client : Type 0 where
  pub ip : Option String
  pub member : String

-- `defaultApiRateLimit`, before any guard has set who is logged in: the key is the address.
unfoldable pub default_limit : ℕ → World → Client → ℕ → World × Passage
default_limit per_minute w client now =
    rate_limiter (record { window_seconds = 60; max = per_minute; headers = true }) w
      (or_else client.ip "anonymous") now client.member

-- The checks of zod on a text: `email()`, and the length that `min` and `max` count.
pub record Zod : Type 0 where
  pub is_email : String → Bool
  pub size : String → ℕ

pub record RegisterBody : Type 0 where
  pub email : String
  pub name : String
  pub password : String
  pub role : Option UserRole
  pub team_id : Option String

unfoldable pub register_schema : Zod → RegisterBody → Result RegisterInput
register_schema zod body =
    if zod.is_email body.email
      && leb 2 (zod.size body.name)
      && leb (zod.size body.name) 100
      && leb 8 (zod.size body.password)
      && leb (zod.size body.password) 128
    then ok (record {
      email = body.email;
      name = body.name;
      password = body.password;
      role = or_else body.role engineer;
      team_id = body.team_id;
    })
    else err (app (validation_error "Invalid request payload"))

-- `requireRole(…)` of the routes
unfoldable pub min_role : Request → UserRole
min_role (notifications r) = engineer
min_role _ = admin

-- The answer, less its body.
abbrev pub answered {ℓ} : {A : Type ℓ} → Db × Result A → Db × Result (Unit {0})
answered (db, ok _) = (db, ok tt)
answered (db, err e) = (db, err e)

-- The key is made by who is logged in.
abbrev pub made_by : JwtPayload → NewKey → NewKey
made_by p k = record k { created_by = p.sub }

module _ (decode : String → Option String) (crypt : Crypt) (jwt : Jwt) (lifetime : ℕ)
    (sha256 : String → String) where
  unfoldable pub run_teams : Db → TeamsRequest → ℕ → Db × Result (Unit {0})
  run_teams db (post_team name description id) now = answered (create_team db name description id)
  run_teams db (patch_team id name description) now = answered (update_team db id name description)
  run_teams db (post_user input id salt) now = answered (register_user crypt db input id salt now)
  run_teams db (patch_role id role) now = (update_user_role db id role, ok tt)
  run_teams db (patch_active id active) now = (set_user_active db id active, ok tt)

  unfoldable pub run_services : Db → JwtPayload → ServicesRequest → Db × Result (Unit {0})
  run_services db p (post_service input id) = answered (create_service db input p.sub id)
  run_services db p (patch_service id input) = answered (update_service db id input p.sub)
  run_services db p (post_disable id) = disable_service db id p.sub

  unfoldable pub run_keys : Db → JwtPayload → KeysRequest → ℕ → Db × Result (Unit {0})
  run_keys db p (post_key k) now = answered (create_key sha256 db (made_by p k) now)
  run_keys db p (post_revoke id) now = revoke_key db id now

  unfoldable pub run_schedules : Db → SchedulesRequest → Db × Result (Unit {0})
  run_schedules db (post_schedule row) = answered (create_schedule db row)
  run_schedules db (delete_schedules id) = delete_schedule db id

  unfoldable pub run_policies : Db → PoliciesRequest → ℕ → Db × Result (Unit {0})
  run_policies db (post_policy policy id) now = answered (create_policy db policy id now)
  run_policies db (delete_policies id) now = delete_policy db id

  unfoldable pub run_notifications : Db → NotificationsRequest → Db × Result (Unit {0})
  run_notifications db (post_retry id) = (retry_notification db id, ok tt)

  unfoldable pub run : Db → JwtPayload → Request → ℕ → Db × Result (Unit {0})
  run db p (teams r) now = run_teams db r now
  run db p (services r) now = run_services db p r
  run db p (keys r) now = run_keys db p r now
  run db p (schedules r) now = run_schedules db r
  run db p (policies r) now = run_policies db r now
  run db p (notifications r) now = run_notifications db r

  abbrev pub permitted : Db → JwtPayload → Request → ℕ → Result (Unit {0}) → Db × Result (Unit {0})
  permitted db p r now (err e) = (db, err e)
  permitted db p r now (ok _) = run db p r now

  abbrev pub authorized : Db → Request → ℕ → Result JwtPayload → Db × Result (Unit {0})
  authorized db r now (err e) = (db, err e)
  authorized db r now (ok p) = permitted db p r now (require_role (min_role r) (some p))

  -- `requireAuth` of the router, then the route.
  unfoldable pub guarded : Db → Headers → Request → ℕ → Db × Result (Unit {0})
  guarded db h r now = authorized db r now (require_auth decode jwt h now)

  abbrev pub served : Headers → Request → ℕ → World × Passage → World × Result (Unit {0})
  served h r now (w, refused e retry_after headers) = (w, err (app e))
  served h r now (w, admitted headers) =
      let (db, answer) = guarded w.db h r now in (record w { db = db }, answer)

  -- The whole request, through the limit of app.ts.
  unfoldable pub serve : ℕ → World → Client → Headers → Request → ℕ → World × Result (Unit {0})
  serve per_minute w client h r now = served h r now (default_limit per_minute w client now)

  abbrev pub registered :
      (id salt : String) → ℕ → World → Result RegisterInput → World × Result AuthResult
  registered id salt now w (err e) = (w, err e)
  registered id salt now w (ok input) =
      let (db, answer) = register crypt jwt lifetime w.db input id salt now in
      (record w { db = db }, answer)

  abbrev pub registering :
      Zod → RegisterBody → (id salt : String) → ℕ → World × Passage → World × Result AuthResult
  registering zod body id salt now (w, refused e retry_after headers) = (w, err (app e))
  registering zod body id salt now (w, admitted headers) =
      registered id salt now w (register_schema zod body)

  -- POST /register of auth.routes.ts, less the cookie of the answer.
  unfoldable pub post_register :
      Zod → ℕ → World → Client → RegisterBody → (id salt : String) → ℕ → World × Result AuthResult
  post_register zod per_minute w client body id salt now =
      registering zod body id salt now (default_limit per_minute w client now)
