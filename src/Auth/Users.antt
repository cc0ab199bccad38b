-- ===== src/Auth/Users.antt =====
-- apps/api/src/modules/auth/auth.service.ts: the accounts.
use ops_mesh.Base.{
  ℕ, ◌+◌, ◌≡◌, Bool, true, Option, none, some, List, [], ◌∷◌, ◌++◌, String, ◌==◌, string_eq,
  if◌then◌else◌, ◌&&◌, any, find, take, sort_desc_by, update_where,
}
use ops_mesh.Types.{UserRole}
use ops_mesh.Db.{Db, UserRow}
use ops_mesh.Errors.{app, other, Result, ok, err, unauthorized_error, conflict_error}
use ops_mesh.Processor.Create.{has_user_id, active_engineer_for_team}
use ops_mesh.Auth.{Jwt, JwtPayload, user}

-- bcrypt, with the salt that it draws: a password matches its own hash. `lower` is `toLowerCase`.
pub record Crypt : Type 0 where
  pub hash : (password salt : String) → String
  pub compare : (password hash : String) → Bool
  pub compare-hash : (password salt : String) → compare password (hash password salt) ≡ true
  pub lower : String → String

pub record RegisterInput : Type 0 where
  pub email : String
  pub name : String
  pub password : String
  pub role : UserRole
  pub team_id : Option String

-- publicUser
pub record PublicUser : Type 0 where
  pub id : String
  pub email : String
  pub name : String
  pub role : UserRole
  pub team_id : Option String

pub record AuthResult : Type 0 where
  pub user : PublicUser
  pub token : String

abbrev pub public_user : UserRow → PublicUser
public_user u = record {
  id = u.id;
  email = u.email;
  name = u.name;
  role = u.role;
  team_id = u.team_id;
}

abbrev pub has_email : String → UserRow → Bool
has_email email u = u.email == email

abbrev pub is_login : String → UserRow → Bool
is_login email u = u.email == email && u.is_active

-- `expiresIn`, in the time of the model; the default of JWT_EXPIRES_IN is eight hours.
abbrev pub payload_of : UserRow → (now lifetime : ℕ) → JwtPayload
payload_of u now lifetime = record {
  sub = u.id;
  email = u.email;
  role = u.role;
  team_id = u.team_id;
  purpose = some user;
  iat = now;
  exp = now + lifetime;
}

abbrev pub seen_at : ℕ → UserRow → UserRow
seen_at now u = record u { last_login_at = some now }

unfoldable pub get_user_by_id : Db → String → Option UserRow
get_user_by_id db id = find (has_user_id id) db.users

unfoldable pub list_users : Db → ℕ → List UserRow
list_users db limit = take limit (sort_desc_by (λ u. u.created_at) db.users)

unfoldable pub update_user_role : Db → String → UserRole → Db
update_user_role db id role = record db {
  users = update_where (has_user_id id) (λ u. record u { role = role }) db.users;
}

unfoldable pub set_user_active : Db → String → Bool → Db
set_user_active db id active = record db {
  users = update_where (has_user_id id) (λ u. record u { is_active = active }) db.users;
}

-- The query is that of activeEngineerForTeam of the event processor, with all columns.
abbrev pub find_on_call_engineer_for_team : Db → String → ℕ → Option UserRow
find_on_call_engineer_for_team db team_id now = active_engineer_for_team db team_id now

module _ (crypt : Crypt) where
  abbrev pub new_user : RegisterInput → (id salt : String) → ℕ → UserRow
  new_user input id salt now = record {
    id = id;
    email = crypt.lower input.email;
    name = input.name;
    password_hash = crypt.hash input.password salt;
    role = input.role;
    team_id = input.team_id;
    is_active = true;
    last_login_at = none;
    created_at = now;
  }

  abbrev pub team_exists : Db → Option String → Bool
  team_exists db none = true
  team_exists db (some id) = any (λ t. t.id == id) db.teams

  -- The insertion, with the references and the keys of the table.
  abbrev pub insert_user : Db → UserRow → Db × Result UserRow
  insert_user db u =
      if any (has_user_id u.id) db.users
      then (db, err (other "unique violation"))
      else if team_exists db u.team_id
      then (record db { users = db.users ++ u ∷ [] }, ok u)
      else (db, err (other "foreign key violation"))

  unfoldable pub register_user : Db → RegisterInput → (id salt : String) → ℕ → Db × Result UserRow
  register_user db input id salt now =
      if any (has_email (crypt.lower input.email)) db.users
      then (db, err (app (conflict_error "Email already registered")))
      else insert_user db (new_user input id salt now)

  module _ (jwt : Jwt) (lifetime : ℕ) where
    abbrev pub sign_token : UserRow → ℕ → String
    sign_token u now = jwt.sign (payload_of u now lifetime)

    abbrev pub login_as : Db → Option UserRow → String → ℕ → Db × Result (UserRow × String)
    login_as db none password now = (db, err (app (unauthorized_error "Invalid credentials")))
    login_as db (some u) password now =
        if crypt.compare password u.password_hash
        then (
          record db { users = update_where (has_user_id u.id) (seen_at now) db.users },
          ok (u, sign_token u now),
        )
        else (db, err (app (unauthorized_error "Invalid credentials")))

    unfoldable pub login_user : Db → (email password : String) → ℕ → Db × Result (UserRow × String)
    login_user db email password now =
        login_as db (find (is_login (crypt.lower email)) db.users) password now

    abbrev pub answer_login : Db × Result (UserRow × String) → Db × Result AuthResult
    answer_login (db, err e) = (db, err e)
    answer_login (db, ok (u, token)) = (db, ok (record { user = public_user u; token = token }))

    abbrev pub answer_register : ℕ → Db × Result UserRow → Db × Result AuthResult
    answer_register now (db, err e) = (db, err e)
    answer_register now (db, ok u) =
        (db, ok (record { user = public_user u; token = sign_token u now }))

    -- `authService()`
    unfoldable pub register : Db → RegisterInput → (id salt : String) → ℕ → Db × Result AuthResult
    register db input id salt now = answer_register now (register_user db input id salt now)

    unfoldable pub login : Db → (email password : String) → ℕ → Db × Result AuthResult
    login db email password now = answer_login (login_user db email password now)
