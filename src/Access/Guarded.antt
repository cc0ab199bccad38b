-- ===== src/Access/Guarded.antt =====
-- Who can write what.
use ops_mesh.Base.{
  ℕ, ◌+◌, ◌<◌, ◌≤◌, ◌≡◌, refl, ◌∙◌, ap, false, Option, none, some, [], ◌∷◌, ◌++◌, String, ◌==◌,
  string_eq, any, arith,
}
use ops_mesh.Types.{UserRole, admin, engineer, viewer}
use ops_mesh.Db.{UserRow}
use ops_mesh.Errors.{ok}
use ops_mesh.Processor.Create.{has_user_id}
use ops_mesh.Auth.{Jwt, JwtPayload, Headers, role_rank, require_role}
use ops_mesh.Auth.Users.{
  Crypt, RegisterInput, has_email, new_user, payload_of, public_user, sign_token, register,
  register_user,
}
use ops_mesh.Auth.Session.{with_bearer, require_auth-sign_token}
use ops_mesh.World.{World}
use ops_mesh.RateLimit.{RateHeaders, admitted}
use ops_mesh.Access.{
  Request, Client, Zod, RegisterBody, default_limit, register_schema, min_role, run, guarded,
  served, serve, authorized, permitted, registered, registering, post_register,
}

top_rank : (u : UserRole) → role_rank u ≤ role_rank admin
top_rank viewer = omega arith
top_rank engineer = omega arith
top_rank admin = omega arith

require_role-admin :
    (min : UserRole) (p : JwtPayload) → p.role ≡ admin → require_role min (some p) ≡ ok tt
unfolding require_role
require_role-admin min p h = ground (arith, h, ap role_rank h, top_rank min)

module _ (decode : String → Option String) (crypt : Crypt) (jwt : Jwt) (lifetime : ℕ)
    (sha256 : String → String) where
  -- Anybody becomes an administrator. A request to POST /register that the limit admits, with a body
  -- that the schema lets through, the role of an administrator, no team, and an email and an id that are
  -- free, adds the account and answers its token; and, where jsonwebtoken verifies what it has signed
  -- until it expires and a token is not the empty text, every request to the routes of Access that
  -- carries this token and that the limit admits is run until then, on whatever database, also one where
  -- the account was deactivated or has another role.
  pub register-serves :
      (zod : Zod) (per_minute : ℕ) (w w1 v v1 : World) (client other : Client) (body : RegisterBody)
      (input : RegisterInput) (id salt : String) (now later : ℕ) (h : Headers) (r : Request)
      (shown shown_later : Option RateHeaders)
      → default_limit per_minute w client now ≡ (w1, admitted shown)
      → register_schema zod body ≡ ok input
      → input.role ≡ admin
      → input.team_id ≡ none
      → any (has_email (crypt.lower input.email)) w1.db.users ≡ false
      → any (has_user_id id) w1.db.users ≡ false
      → default_limit per_minute v other later ≡ (v1, admitted shown_later)
      → ((time : ℕ)
          → time < now + lifetime
          → jwt.verify (sign_token crypt jwt lifetime (new_user crypt input id salt now) now) time
            ≡ some (payload_of (new_user crypt input id salt now) now lifetime))
      → (sign_token crypt jwt lifetime (new_user crypt input id salt now) now == "") ≡ false
      → later < now + lifetime
      → (let u = new_user crypt input id salt now in
          let token = sign_token crypt jwt lifetime u now in
          let done =
            run decode crypt jwt lifetime sha256 v1.db (payload_of u now lifetime) r later in
          (post_register decode crypt jwt lifetime sha256 zod per_minute w client body id salt now
            ≡ (
              record w1 { db = record w1.db { users = w1.db.users ++ u ∷ [] } },
              ok (record { user = public_user u; token = token }),
            ))
          × (serve decode crypt jwt lifetime sha256 per_minute v other (with_bearer h token) r later
              ≡ (record v1 { db = done.0 }, done.1)))
  unfolding register register_user post_register serve guarded
  register-serves zod per_minute w w1 v v1 client other body input id salt now later h r shown
        shown_later admits valid role no_team free new admits_later verifies some_text lt =
      let u : UserRow = new_user crypt input id salt now in
      let token = sign_token crypt jwt lifetime u now in
      let inside : guarded decode crypt jwt lifetime sha256 v1.db (with_bearer h token) r later
          ≡ run decode crypt jwt lifetime sha256 v1.db (payload_of u now lifetime) r later =
        ap (authorized decode crypt jwt lifetime sha256 v1.db r later) (
          require_auth-sign_token crypt jwt lifetime decode h u now later (verifies later lt)
            some_text)
        ∙ ap (permitted decode crypt jwt lifetime sha256 v1.db (payload_of u now lifetime) r later)
            (require_role-admin (min_role r) (payload_of u now lifetime) role) in
      (
        ap (registering decode crypt jwt lifetime sha256 zod body id salt now) admits
            ∙ ap (registered decode crypt jwt lifetime sha256 id salt now w1) valid
            ∙ rw (free, new, no_team) refl,
        ap (served decode crypt jwt lifetime sha256 (with_bearer h token) r later) admits_later
            ∙ ap (λ d. (record v1 { db = d.0 }, d.1)) inside,
      )
