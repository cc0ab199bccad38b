-- ===== src/Tests/Accounts.antt =====
-- Runs of accounts, API keys and the ingestion endpoint.
use ops_mesh.Base.{
  ℕ, [], List, ◌∷◌, true, false, ◌≡◌, refl, none, some, String, ◌==◌, string_eq, if◌then◌else◌, ltb,
  any, strip_prefix, slice_to, arith, eq_refl,
}
use ops_mesh.Auth.Accounts.{
  AccountStep, registration, login_attempt, role_change, activation, IsUnique, account_steps,
  account_steps-IsUnique,
}
use ops_mesh.Types.{admin, engineer, event_ingest}
use ops_mesh.Db.{Db, UserRow, ApiKeyRow}
use ops_mesh.Errors.{Result, ok}
use ops_mesh.Auth.{Jwt, Headers, ApiKeyAuth, require_auth, require_api_key}
use ops_mesh.Auth.Keys.{
  key_row, NewKey, plaintext_of, generate_api_key, get_api_key_data, revoke_api_key,
}
use ops_mesh.Auth.Users.{Crypt, RegisterInput, register_user, login_user, new_user, payload_of}
use ops_mesh.Auth.Session.{with_bearer, login-register_user}
use ops_mesh.Auth.Revoked.{KeyStep, generate, revoke, key_steps, revoked_for_good}
use ops_mesh.World.{transaction}
use ops_mesh.RateLimit.{RateLimitOptions}
use ops_mesh.Ingest.{Intake}
use ops_mesh.Ingest.Route.{EventReply, post_event}
use ops_mesh.Ingest.Source.{Written, is_key_of, post_event-Written}
use ops_mesh.Tests.Ingestion.{outside, request, first_call}
use ops_mesh.Tests.Data.{database, world}

-- A hash that is the password itself.
abbrev pub crypt : Crypt
crypt = record {
  hash = λ password salt. password;
  compare = λ password hash. password == hash;
  compare-hash = λ password salt. eq_refl password;
  lower = λ s. s;
}

abbrev input : RegisterInput
input = record {
  email = "cleo@ops.test";
  name = "Cleo";
  password = "pw";
  role = engineer;
  team_id = some "core";
}

abbrev cleo : UserRow
cleo = new_user crypt input "cleo" "salt" 5

-- One token, of Cleo's login at time 10.
abbrev pub jwt : Jwt
jwt = record {
  sign = λ p. "token";
  verify = λ token now.
      if token == "token"
      then (if ltb now 1010 then some (payload_of cleo 10 1000) else none)
      else none;
}

abbrev pub headers : Headers
headers = record { authorization = none; cookie = none; x_opsmesh_key = none }

abbrev with_cleo : Db × Result UserRow
with_cleo = register_user crypt database input "cleo" "salt" 5

stored : with_cleo.1 ≡ ok cleo
unfolding register_user
stored = refl

login-register_user_example :
    ((login_user crypt jwt 1000 with_cleo.0 "cleo@ops.test" "pw" 10).1 ≡ ok (cleo, "token"))
    × (require_auth some jwt (with_bearer headers "token") 500 ≡ ok (payload_of cleo 10 1000))
    × (cleo.id ≡ "cleo")
    × (cleo.role ≡ engineer)
login-register_user_example =
    login-register_user crypt jwt 1000 some database with_cleo.0 input "cleo" "salt" 5 10 500 cleo
      headers (unfold register_user in refl) (λ time lt. ground arith) refl (omega arith)

abbrev pub sha256 : String → String
sha256 s = s

abbrev new_key : NewKey
new_key = record {
  id = "key1";
  name = "checkout";
  subject = "checkout";
  purpose = event_ingest;
  random = "abcdefgh";
  created_by = "anna";
}

abbrev with_key : Db × Result ApiKeyRow
with_key = generate_api_key sha256 database new_key 5

key_is_made :
    generate_api_key sha256 database new_key 5 ≡ (with_key.0, ok (key_row sha256 new_key 5))
unfolding generate_api_key transaction
key_is_made = refl

abbrev other_key : NewKey
other_key = record new_key { id = "key2"; random = "zzzzzzzz" }

abbrev later_steps : List KeyStep
later_steps = generate other_key 30 ∷ generate new_key 31 ∷ revoke "key2" 32 ∷ []

revoked_for_good_example :
    (get_api_key_data sha256 with_key.0 (plaintext_of event_ingest "abcdefgh")
      ≡ some (record { key_id = "key1"; subject = "checkout"; purpose = event_ingest }))
    × (get_api_key_data sha256
          (key_steps sha256 (revoke_api_key with_key.0 "key1" 20) later_steps)
          (plaintext_of event_ingest "abcdefgh")
        ≡ none)
revoked_for_good_example =
    revoked_for_good sha256 database with_key.0 new_key (key_row sha256 new_key 5) 5 20 later_steps
      key_is_made

-- A request with that key.
abbrev sent_headers : Headers
sent_headers = record headers { x_opsmesh_key = some "om_eve_abcdefgh" }

abbrev key_auth : ApiKeyAuth
key_auth = record { subject = "checkout"; purpose = event_ingest; key_id = some "key1" }

abbrev keyed_intake : Intake
keyed_intake = record { world = record world { db = with_key.0 }; queue = [] }

let_in : require_api_key sha256 event_ingest keyed_intake.world.db sent_headers ≡ ok key_auth
unfolding require_api_key get_api_key_data generate_api_key plaintext_of strip_prefix transaction
    slice_to
let_in = refl

abbrev limits : RateLimitOptions
limits = record { window_seconds = 60; max = 1000; headers = true }

abbrev posted : Intake × Result EventReply
posted =
    post_event outside sha256 (λ i. true) limits first_call "m1" keyed_intake sent_headers request

post_event-Written_example :
    Written "checkout" keyed_intake posted.0
    × (any (is_key_of sha256 "om_eve_abcdefgh" "checkout") keyed_intake.world.db.api_keys ≡ true)
post_event-Written_example =
    post_event-Written outside sha256 (λ i. true) limits first_call "m1" keyed_intake sent_headers
      request "om_eve_abcdefgh" key_auth refl let_in refl

-- A login, a change of role, a deactivation, and a registration with a taken email.
abbrev account_run : List (AccountStep × ℕ)
account_run =
    (registration input "cleo" "salt", 5)
    ∷ (login_attempt "cleo@ops.test" "pw", 10)
    ∷ (role_change "anna" admin, 11)
    ∷ (activation "cleo" false, 12)
    ∷ (registration input "cleo2" "salt", 13)
    ∷ []

account_steps-IsUnique_example : IsUnique (account_steps crypt jwt 1000 database account_run).users
account_steps-IsUnique_example =
    account_steps-IsUnique crypt jwt 1000 database account_run (refl, tt)
