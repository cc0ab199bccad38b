-- ===== src/Auth/Accounts.antt =====
-- The table of accounts, over whatever registrations, logins and changes.
use ops_mesh.Base.{
  ℕ, ◌≡◌, refl, ◌∙◌, ap, Bool, false, Option, none, some, List, [], ◌∷◌, ◌++◌, String, ◌==◌,
  string_eq, ◌||◌, any, find, update_where, arith, eq_iff, Bool-cases, inl, inr,
}
use ops_mesh.Types.{UserRole}
use ops_mesh.Db.{Db, UserRow}
use ops_mesh.Processor.Create.{has_user_id}
use ops_mesh.Auth.{Jwt}
use ops_mesh.Auth.Users.{
  Crypt, RegisterInput, has_email, is_login, new_user, insert_user, team_exists, register_user,
  login_as, login_user, seen_at, update_user_role, set_user_active,
}

pub data AccountStep : Type 0 where
  registration : RegisterInput → (id salt : String) → AccountStep
  login_attempt : (email password : String) → AccountStep
  role_change : (id : String) → UserRole → AccountStep
  activation : (id : String) → Bool → AccountStep

-- Another account with the email or the id.
abbrev clashes : UserRow → UserRow → Bool
clashes u v = v.email == u.email || v.id == u.id

-- No two accounts share an email or an id.
abbrev pub IsUnique : List UserRow → Type 0
IsUnique [] = Unit
IsUnique (u ∷ users) = (any (clashes u) users ≡ false) × IsUnique users

clash-update_where :
    (u : UserRow) (p : UserRow → Bool) (f : UserRow → UserRow)
    → ((v : UserRow) → ((f v).email ≡ v.email) × ((f v).id ≡ v.id))
    → (users : List UserRow) → any (clashes u) (update_where p f users) ≡ any (clashes u) users
clash-update_where u p f keep [] = refl
clash-update_where u p f keep (v ∷ users) =
    ground (arith, keep v, clash-update_where u p f keep users)

clash-same :
    (u v : UserRow) (users : List UserRow)
    → v.email ≡ u.email
    → v.id ≡ u.id
    → any (clashes v) users ≡ any (clashes u) users
clash-same u v users email id =
    ap (λ e. any (λ w. w.email == e || w.id == v.id) users) email
    ∙ ap (λ i. any (λ w. w.email == u.email || w.id == i) users) id

any-snoc :
    (p : UserRow → Bool) (v : UserRow) (users : List UserRow)
    → any p (users ++ v ∷ []) ≡ any p users || p v
any-snoc p v [] = ground arith
any-snoc p v (u ∷ users) = ground (arith, any-snoc p v users)

IsUnique-update_where :
    (p : UserRow → Bool) (f : UserRow → UserRow)
    → ((v : UserRow) → ((f v).email ≡ v.email) × ((f v).id ≡ v.id))
    → (users : List UserRow) → IsUnique users
    → IsUnique (update_where p f users)
IsUnique-update_where p f keep [] h = tt
IsUnique-update_where p f keep (u ∷ users) (new, h) = elim (Bool-cases (p u)) [
  | inl e ↦ rw e (
    clash-same u (f u) (update_where p f users) (keep u).0 (keep u).1
        ∙ clash-update_where u p f keep users
        ∙ new,
    IsUnique-update_where p f keep users h,
  )
  | inr e ↦ rw e (clash-update_where u p f keep users ∙ new, IsUnique-update_where p f keep users h)
]

IsUnique-append :
    (v : UserRow) (users : List UserRow)
    → IsUnique users
    → any (has_email v.email) users ≡ false
    → any (has_user_id v.id) users ≡ false
    → IsUnique (users ++ v ∷ [])
IsUnique-append v [] h email id = (refl, tt)
IsUnique-append v (u ∷ users) (new, h) email id = (
  any-snoc (clashes u) v users
      ∙ ground (
        arith,
        new,
        email,
        id,
        eq_iff u.email v.email,
        eq_iff u.id v.id,
        eq_iff v.email u.email,
        eq_iff v.id u.id,
      ),
  IsUnique-append v users h (ground (arith, email)) (ground (arith, id)),
)

module _ (crypt : Crypt) (jwt : Jwt) (lifetime : ℕ) where
  insert_user-IsUnique :
      (db : Db) (u : UserRow)
      → IsUnique db.users
      → any (has_email u.email) db.users ≡ false
      → IsUnique (insert_user crypt db u).0.users
  insert_user-IsUnique db u h free = elim (Bool-cases (any (has_user_id u.id) db.users)) [
    | inl taken ↦ rw taken h
    | inr new ↦ elim (Bool-cases (team_exists crypt db u.team_id)) [
      | inl team ↦ rw (new, team) (IsUnique-append u db.users h free new)
      | inr gone ↦ rw (new, gone) h
    ]
  ]

  register_user-IsUnique :
      (db : Db) (input : RegisterInput) (id salt : String) (now : ℕ)
      → IsUnique db.users
      → IsUnique (register_user crypt db input id salt now).0.users
  unfolding register_user
  register_user-IsUnique db input id salt now h =
      elim (Bool-cases (any (has_email (crypt.lower input.email)) db.users)) [
        | inl taken ↦ rw taken h
        | inr free ↦ rw free (insert_user-IsUnique db (new_user crypt input id salt now) h free)
      ]

  login_as-IsUnique :
      (db : Db) (u : Option UserRow) (password : String) (now : ℕ)
      → IsUnique db.users
      → IsUnique (login_as crypt jwt lifetime db u password now).0.users
  login_as-IsUnique db none password now h = h
  login_as-IsUnique db (some u) password now h =
      elim (Bool-cases (crypt.compare password u.password_hash)) [
        | inl e ↦
            rw e (
              IsUnique-update_where (has_user_id u.id) (seen_at now) (λ v. (refl, refl)) db.users h)
        | inr e ↦ rw e h
      ]

  unfoldable pub account_step : Db → AccountStep → ℕ → Db
  account_step db (registration input id salt) now = (register_user crypt db input id salt now).0
  account_step db (login_attempt email password) now =
      (login_user crypt jwt lifetime db email password now).0
  account_step db (role_change id role) now = update_user_role db id role
  account_step db (activation id active) now = set_user_active db id active

  account_step-IsUnique :
      (db : Db) (step : AccountStep) (now : ℕ)
      → IsUnique db.users
      → IsUnique (account_step db step now).users
  unfolding account_step login_user update_user_role set_user_active
  account_step-IsUnique db (registration input id salt) now h =
      register_user-IsUnique db input id salt now h
  account_step-IsUnique db (login_attempt email password) now h =
      login_as-IsUnique db (find (is_login (crypt.lower email)) db.users) password now h
  account_step-IsUnique db (role_change id role) now h =
      IsUnique-update_where (has_user_id id) (λ u. record u { role = role }) (λ v. (refl, refl))
        db.users h
  account_step-IsUnique db (activation id active) now h =
      IsUnique-update_where (has_user_id id) (λ u. record u { is_active = active })
        (λ v. (refl, refl)) db.users h

  unfoldable pub account_steps : Db → List (AccountStep × ℕ) → Db
  unfolding account_step
  account_steps db [] = db
  account_steps db ((step, now) ∷ steps) = account_steps (account_step db step now) steps

  -- No sequence of registrations, logins, changes of roles and activations, with whatever outcomes, gives
  -- two accounts one email, in the spelling that is stored, or one id, if there were none before.
  pub account_steps-IsUnique :
      (db : Db) (steps : List (AccountStep × ℕ))
      → IsUnique db.users
      → IsUnique (account_steps db steps).users
  unfolding account_steps
  account_steps-IsUnique db [] h = h
  account_steps-IsUnique db ((step, now) ∷ steps) h =
      account_steps-IsUnique (account_step db step now) steps (account_step-IsUnique db step now h)
