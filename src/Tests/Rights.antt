-- ===== src/Tests/Rights.antt =====
-- Runs of the routes behind their guards, and of the teams.
use ops_mesh.Base.{
  ◌≡◌, refl, false, none, some, [], ◌∷◌, ◌++◌, ◌==◌, string_eq, if◌then◌else◌, ltb, arith,
  update_where,
}
use ops_mesh.Types.{admin}
use ops_mesh.Db.{Db, UserRow, TeamRow}
use ops_mesh.Errors.{app, ok, err, not_found_error}
use ops_mesh.Auth.{Jwt}
use ops_mesh.Auth.Users.{
  RegisterInput, new_user, payload_of, public_user, register, set_user_active,
}
use ops_mesh.Auth.Session.{with_bearer}
use ops_mesh.Access.{
  Request, policies, delete_policies, run, serve, Client, Zod, RegisterBody, register_schema,
  default_limit, post_register,
}
use ops_mesh.Access.Guarded.{register-serves}
use ops_mesh.Teams.{has_team_id, update_team}
use ops_mesh.Teams.Edited.{edited, update_team_lem}
use ops_mesh.Tests.Accounts.{crypt, headers, sha256}
use ops_mesh.Tests.Data.{database, world}
use ops_mesh.World.{World}
use ops_mesh.RateLimit.{RateHeaders, Passage, admitted, rate_limiter, decide}
use ops_mesh.Redis.{sliding_window_add, new_redis}
use ops_mesh.Base.{any, ap, lookup, insert}
use ops_mesh.Processor.Create.{has_user_id}
use ops_mesh.Errors.{Result}
use ops_mesh.Auth.Users.{has_email}

abbrev deletion : Request
deletion = policies (delete_policies "pol1")

abbrev mallory_input : RegisterInput
mallory_input = record {
  email = "mallory@ops.test";
  name = "Mallory";
  password = "password";
  role = admin;
  team_id = none;
}

abbrev mallory_body : RegisterBody
mallory_body = record {
  email = "mallory@ops.test";
  name = "Mallory";
  password = "password";
  role = some admin;
  team_id = none;
}

-- The checks of zod at the texts of the body.
abbrev zod : Zod
zod = record {
  is_email = λ t. t == "mallory@ops.test";
  size = λ t. if t == "Mallory" then 7 else if t == "password" then 8 else 0;
}

body_is_valid : register_schema zod mallory_body ≡ ok mallory_input
unfolding register_schema
body_is_valid = refl

abbrev client : Client
client = record { ip = some "10.0.0.1"; member = "a" }

abbrev first_request : World × Passage
first_request = default_limit 120 world client 10

abbrev first_headers : RateHeaders
first_headers = record { limit = 120; remaining = 119; window = 60 }

first_is_admitted : first_request ≡ (first_request.0, admitted (some first_headers))
unfolding default_limit rate_limiter sliding_window_add decide lookup insert new_redis
first_is_admitted = refl

abbrev mallory : UserRow
mallory = new_user crypt mallory_input "mallory" "salt" 10

abbrev mallory_jwt : Jwt
mallory_jwt = record {
  sign = λ p. "token";
  verify = λ token now.
      if token == "token"
      then (if ltb now 1010 then some (payload_of mallory 10 1000) else none)
      else none;
}

-- The account is deactivated before it deletes the policies.
abbrev deactivated : World
deactivated = record world {
  db =
      set_user_active (register crypt mallory_jwt 1000 database mallory_input "mallory" "salt" 10).0
        "mallory" false;
}

abbrev second_request : World × Passage
second_request = default_limit 120 deactivated client 500

second_is_admitted : second_request ≡ (second_request.0, admitted (some first_headers))
unfolding default_limit rate_limiter sliding_window_add decide lookup insert new_redis
second_is_admitted = refl

abbrev deleted : Db × Result (Unit {0})
deleted =
    run some crypt mallory_jwt 1000 sha256 second_request.0.db (payload_of mallory 10 1000) deletion
      500

same_tables : first_request.0.db ≡ database
unfolding default_limit rate_limiter
same_tables = refl

register-serves_example :
    (post_register some crypt mallory_jwt 1000 sha256 zod 120 world client mallory_body "mallory"
        "salt" 10
      ≡ (
        record first_request.0 {
          db = record first_request.0.db { users = first_request.0.db.users ++ mallory ∷ [] };
        },
        ok (record { user = public_user mallory; token = "token" }),
      ))
    × (serve some crypt mallory_jwt 1000 sha256 120 deactivated client
          (with_bearer headers "token")
          deletion
          500
        ≡ (record second_request.0 { db = deleted.0 }, deleted.1))
register-serves_example =
    register-serves some crypt mallory_jwt 1000 sha256 zod 120 world first_request.0 deactivated
      second_request.0 client client mallory_body mallory_input "mallory" "salt" 10 500 headers
      deletion (some first_headers) (some first_headers) first_is_admitted body_is_valid refl refl
      (ap (λ d. any (has_email "mallory@ops.test") d.users) same_tables)
      (ap (λ d. any (has_user_id "mallory") d.users) same_tables) second_is_admitted
      (λ time lt. ground arith) refl (omega arith)

abbrev core : TeamRow
core = record { id = "core"; name = "core"; description = none }

update_team_lem_example :
    (update_team database "core" none (some "The core team") ≡ (
      record database {
        teams =
            update_where
              (has_team_id "core")
              (λ _. edited none (some "The core team") core)
              database.teams;
      },
      ok (some (edited none (some "The core team") core)),
    ))
    × (update_team database "edge" none (some "The core team")
        ≡ (database, err (app (not_found_error "Team not found"))))
    × (update_team database "core" none none ≡ (database, ok none))
update_team_lem_example =
    update_team_lem database "core" none (some "The core team") core refl "edge" refl refl
