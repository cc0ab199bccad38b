-- ===== src/Auth/Session.antt =====
-- From an account to a request: registration, login and the guard in one.
use Prim.Native.String
use ops_mesh.Base.{
  ℕ, ◌+◌, ◌<◌, ◌≡◌, refl, sym, ◌∙◌, ap, true, false, Option, none, some, List, [], ◌∷◌, ◌++◌,
  String, ◌==◌, string_eq, any, find, find-append, strip_prefix-append, arith, eq_refl, Bool-cases,
  inl, inr,
}
use ops_mesh.Db.{Db, UserRow}
use ops_mesh.Errors.{Result, ok}
use ops_mesh.Processor.Create.{has_user_id}
use ops_mesh.Auth.{Headers, Jwt, verify_token, require_auth}
use ops_mesh.Auth.Users.{
  Crypt, RegisterInput, has_email, is_login, new_user, insert_user, team_exists, register_user,
  login_user, login_as, payload_of, sign_token,
}

module _ (crypt : Crypt) where
  inserted :
      (db db1 : Db) (v u : UserRow)
      → insert_user crypt db v ≡ (db1, ok u)
      → (u ≡ v) × (db1.users ≡ db.users ++ v ∷ [])
  inserted db db1 v u h = elim (Bool-cases (any (has_user_id v.id) db.users)) [
    | inl taken ↦ absurd (ground (arith, taken, h))
    | inr free ↦ elim (Bool-cases (team_exists crypt db v.team_id)) [
      | inl team ↦ same (rw (free, team) at h)
      | inr gone ↦ absurd (ground (arith, free, gone, h))
    ]
  ]
    where
      same :
          ◌≡◌ {A = Db × Result UserRow} (record db { users = db.users ++ v ∷ [] }, ok v) (db1, ok u)
          → (u ≡ v) × (db1.users ≡ db.users ++ v ∷ [])
      same e = (cc (ap (λ p. p.1) e), sym (ap (λ p. p.0.users) e))

  registered :
      (db db1 : Db) (input : RegisterInput) (id salt : String) (now : ℕ) (u : UserRow)
      → register_user crypt db input id salt now ≡ (db1, ok u)
      → (u ≡ new_user crypt input id salt now)
        × (db1.users ≡ db.users ++ u ∷ [])
        × (any (has_email (crypt.lower input.email)) db.users ≡ false)
  unfolding register_user
  registered db db1 input id salt now u h =
      elim (Bool-cases (any (has_email (crypt.lower input.email)) db.users)) [
        | inl taken ↦ absurd (ground (arith, taken, h))
        | inr free ↦
            let (this, rows) =
              inserted db db1 (new_user crypt input id salt now) u (rw free at h) in
            (this, rows ∙ ap (λ v. db.users ++ v ∷ []) (sym this), free)
      ]

not_login :
    (email : String) (users : List UserRow)
    → any (has_email email) users ≡ false
    → find (is_login email) users ≡ none
not_login email [] h = refl
not_login email (u ∷ users) h = ground (arith, not_login email users)

-- The headers of a request that carries a token.
abbrev pub with_bearer : Headers → String → Headers
with_bearer h token = record h { authorization = some (String.◌++◌ "Bearer " token) }

module _ (crypt : Crypt) (jwt : Jwt) (lifetime : ℕ) where
  login_registered :
      (db db1 : Db) (input : RegisterInput) (id salt : String) (now at : ℕ) (u : UserRow)
      → register_user crypt db input id salt now ≡ (db1, ok u)
      → (login_user crypt jwt lifetime db1 input.email input.password at).1
        ≡ ok (u, sign_token crypt jwt lifetime u at)
  unfolding login_user
  login_registered db db1 input id salt now at u h =
      let (this, rows, free) = registered crypt db db1 input id salt now u h in
      let new : UserRow = new_user crypt input id salt now in
      let mine : is_login (crypt.lower input.email) new ≡ true =
        ground (arith, eq_refl (crypt.lower input.email)) in
      let found : find (is_login (crypt.lower input.email)) db1.users ≡ some new =
        ap (find (is_login (crypt.lower input.email))) (rows ∙ ap (λ v. db.users ++ v ∷ []) this)
        ∙ find-append (is_login (crypt.lower input.email)) db.users (new ∷ [])
            (not_login (crypt.lower input.email) db.users free)
        ∙ rw mine refl in
      ap (λ o. (login_as crypt jwt lifetime db1 o input.password at).1) found
      ∙ rw (crypt.compare-hash input.password salt) refl
      ∙ ap (λ v. ok (v, sign_token crypt jwt lifetime v at)) (sym this)

  pub require_auth-sign_token :
      (decode : String → Option String) (h : Headers) (u : UserRow) (at later : ℕ)
      → jwt.verify (sign_token crypt jwt lifetime u at) later ≡ some (payload_of u at lifetime)
      → (sign_token crypt jwt lifetime u at == "") ≡ false
      → require_auth decode jwt (with_bearer h (sign_token crypt jwt lifetime u at)) later
        ≡ ok (payload_of u at lifetime)
  unfolding require_auth verify_token
  require_auth-sign_token decode h u at later verified some_text =
      let token : String = sign_token crypt jwt lifetime u at in
      rw (strip_prefix-append "Bearer " token, some_text, verify_token, verified) refl

  -- Who registers can log in with the same email and password, with the very account that was stored;
  -- and, where jsonwebtoken verifies what it has signed until it expires, and a token is not the empty
  -- text, a request that carries the token of that login is let through, until it expires, as that account
  -- with the role that was registered.
  pub login-register_user :
      (decode : String → Option String) (db db1 : Db) (input : RegisterInput) (id salt : String)
      (now at later : ℕ) (u : UserRow) (h : Headers)
      → register_user crypt db input id salt now ≡ (db1, ok u)
      → ((time : ℕ)
          → time < at + lifetime
          → jwt.verify (sign_token crypt jwt lifetime u at) time ≡ some (payload_of u at lifetime))
      → (sign_token crypt jwt lifetime u at == "") ≡ false
      → later < at + lifetime
      → ((login_user crypt jwt lifetime db1 input.email input.password at).1
          ≡ ok (u, sign_token crypt jwt lifetime u at))
        × (require_auth decode jwt (with_bearer h (sign_token crypt jwt lifetime u at)) later
            ≡ ok (payload_of u at lifetime))
        × (u.id ≡ id)
        × (u.role ≡ input.role)
  login-register_user decode db db1 input id salt now at later u h stored verifies some_text lt =
      let (this, _, _) = registered crypt db db1 input id salt now u stored in
      (
        login_registered db db1 input id salt now at u stored,
        require_auth-sign_token decode h u at later (verifies later lt) some_text,
        ap (λ v. v.id) this,
        ap (λ v. v.role) this,
      )
