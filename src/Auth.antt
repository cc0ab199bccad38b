-- ===== src/Auth.antt =====
-- apps/api/src/middleware/auth.ts: tokens, the session cookie, and the guards of the routes. A guard
-- calls `next` with an error, or lets the request on. The request context, which only the log reads, is
-- left out.
pub mod Keys
pub mod Users
pub mod Session
pub mod Revoked
pub mod Accounts
use ops_mesh.Base.{
  ℕ, ◌+◌, ◌<◌, ◌≡◌, Bool, true, false, not, Option, none, some, List, [], ◌∷◌, String, ◌==◌,
  string_eq, if◌then◌else◌, ◌&&◌, or_else, ltb, strip_prefix, split, split_at, trim, Map, lookup,
  insert,
}
use ops_mesh.Types.{UserRole, admin, engineer, viewer, ApiKeyPurpose, event_ingest}
use ops_mesh.Db.{Db}
use ops_mesh.Errors.{
  Thrown, app, other, Result, ok, err, unauthorized_error, forbidden_error, ◌>>=◌,
}
use ops_mesh.World.{text}
use ops_mesh.Auth.Keys.{KeyData, get_api_key_data}

pub data Purpose : Type 0 where
  user api : Purpose

-- JwtPayload
pub record JwtPayload : Type 0 where
  pub sub : String
  pub email : String
  pub role : UserRole
  pub team_id : Option String
  pub purpose : Option Purpose
  pub iat : ℕ
  pub exp : ℕ

-- jsonwebtoken with the configured secret; a token that does not verify has no payload.
pub record Jwt : Type 0 where
  pub sign : JwtPayload → String
  pub verify : String → ℕ → Option JwtPayload

-- The headers that the guards read; `authorization` and `cookie` are missing or texts.
pub record Headers : Type 0 where
  pub authorization : Option String
  pub cookie : Option String
  pub x_opsmesh_key : Option String

-- `req.apiKey`
pub record ApiKeyAuth : Type 0 where
  pub subject : String
  pub purpose : ApiKeyPurpose
  pub key_id : Option String

abbrev pub session_cookie : String
session_cookie = "opsmesh.sid"

abbrev pub role_rank : UserRole → ℕ
role_rank viewer = 0
role_rank engineer = 1
role_rank admin = 2

abbrev role_text : UserRole → String
role_text viewer = "VIEWER"
role_text engineer = "ENGINEER"
role_text admin = "ADMIN"

-- `ROLE_RANK[payload.role] < ROLE_RANK[minRole]`
unfoldable pub require_role : UserRole → Option JwtPayload → Result (Unit {0})
require_role min none = err (app (unauthorized_error "Unauthorized"))
require_role min (some p) =
    if ltb (role_rank p.role) (role_rank min)
    then err (app (forbidden_error (text ("Requires " ∷ role_text min ∷ " role" ∷ []))))
    else ok tt

abbrev pub is_user : Option Purpose → Bool
is_user none = false
is_user (some user) = true
is_user (some api) = false

abbrev pub is_api : Option Purpose → Bool
is_api none = false
is_api (some user) = false
is_api (some api) = true

-- `key || undefined`
abbrev pub non_empty : Option String → Option String
non_empty none = none
non_empty (some s) = if s == "" then none else some s

-- `header.startsWith('Bearer ') ? header.slice(7) : undefined`
abbrev pub bearer : Option String → Option String
bearer none = none
bearer (some header) = strip_prefix "Bearer " header

-- One `name=value` of the cookie header; `decode` is `decodeURIComponent`, none where it throws.
module _ (decode : String → Option String) where
  abbrev pub put_cookie : Map String → Option (String × String) → Result (Map String)
  put_cookie out none = ok out
  put_cookie out (some (name, value)) = if name == "" then ok out else elim (decode (trim value)) [
    | none ↦ err (other "URI malformed")
    | some v ↦ ok (insert (trim name) v out)
  ]

  unfoldable pub parse_parts : Map String → List String → Result (Map String)
  parse_parts out [] = ok out
  parse_parts out (part ∷ parts) =
      put_cookie out (split_at b'=' part) >>= λ out'. parse_parts out' parts

  unfoldable pub parse_cookies : Option String → Result (Map String)
  unfolding parse_parts
  parse_cookies none = ok []
  parse_cookies (some header) = if header == "" then ok [] else parse_parts [] (split b';' header)

  abbrev pub token_of_cookies : Result (Map String) → Result (Option String)
  token_of_cookies (err e) = err e
  token_of_cookies (ok cookies) = ok (lookup session_cookie cookies)

  abbrev pub session_token : Headers → Option String → Result (Option String)
  session_token h (some token) = ok (some token)
  session_token h none = token_of_cookies (parse_cookies h.cookie)

  module _ (jwt : Jwt) where
    unfoldable pub verify_token : String → ℕ → Result JwtPayload
    verify_token token now = elim (jwt.verify token now) [
      | none ↦ err (app (unauthorized_error "Invalid or expired token"))
      | some p ↦ ok p
    ]

    abbrev pub user_payload : JwtPayload → Result JwtPayload
    user_payload p =
        if is_user p.purpose then ok p else err (app (unauthorized_error "Invalid token purpose"))

    abbrev pub authenticate : Option String → ℕ → Result JwtPayload
    authenticate none now = err (app (unauthorized_error "Missing Bearer token or session cookie"))
    authenticate (some token) now =
        if token == ""
        then err (app (unauthorized_error "Missing Bearer token or session cookie"))
        else (verify_token token now >>= user_payload)

    -- `req.auth`, or the error. A malformed cookie throws out of the guard.
    unfoldable pub require_auth : Headers → ℕ → Result JwtPayload
    unfolding verify_token
    require_auth h now = session_token h (bearer h.authorization) >>= λ t. authenticate t now

    pub data AnyAuth : Type 0 where
      by_user : JwtPayload → AnyAuth
      by_key : ApiKeyAuth → AnyAuth

    unfoldable pub require_any_auth : Headers → ℕ → Result AnyAuth
    require_any_auth h now = elim (bearer h.authorization) [
      | none ↦ err (app (unauthorized_error "Missing authorization"))
      | some token ↦ elim (jwt.verify token now) [
        | none ↦ err (app (unauthorized_error "Invalid or expired token"))
        | some p ↦
            if is_api p.purpose
            then ok (by_key (record { subject = p.sub; purpose = event_ingest; key_id = none }))
            else ok (by_user p)
      ]
    ]

abbrev pub purpose_eq : ApiKeyPurpose → ApiKeyPurpose → Bool
purpose_eq event_ingest event_ingest = true
purpose_eq event_ingest ApiKeyPurpose.admin = false
purpose_eq ApiKeyPurpose.admin event_ingest = false
purpose_eq ApiKeyPurpose.admin ApiKeyPurpose.admin = true

abbrev pub key_secret : Headers → Option String
key_secret h = elim h.x_opsmesh_key [ some key ↦ some key | none ↦ bearer h.authorization ]

abbrev pub checked_key : ApiKeyPurpose → Option KeyData → Result ApiKeyAuth
checked_key min none = err (app (unauthorized_error "Invalid API key"))
checked_key min (some k) =
    if not (purpose_eq k.purpose min) && not (purpose_eq k.purpose ApiKeyPurpose.admin)
    then err (app (forbidden_error "API key lacks required purpose"))
    else ok (record { subject = k.subject; purpose = k.purpose; key_id = some k.key_id })

-- `sha256` is the hash of the crypto module.
module _ (sha256 : String → String) where
  abbrev pub keyed : ApiKeyPurpose → Db → Option String → Result ApiKeyAuth
  keyed min db none = err (app (unauthorized_error "Missing x-opsmesh-key header"))
  keyed min db (some secret) = checked_key min (get_api_key_data sha256 db secret)

  unfoldable pub require_api_key : ApiKeyPurpose → Db → Headers → Result ApiKeyAuth
  require_api_key min db h = keyed min db (non_empty (key_secret h))
