-- ===== src/Auth/Revoked.antt =====
-- The life of an API key: made, found by its plaintext, revoked, and never found again.
use ops_mesh.Base.{
  ℕ, ◌≡◌, refl, sym, ◌∙◌, ap, subst, ◌⊎◌, Bool, true, false, Option, none, some, List, [], ◌∷◌,
  ◌++◌, String, ◌==◌, string_eq, if◌then◌else◌, any, find, find-append, slice_to, strip_prefix,
  strip_prefix-append, update_where, All, All-append, arith, eq_refl, eq_iff, Bool-cases, inl, inr,
}
use ops_mesh.Db.{Db, ApiKeyRow}
use ops_mesh.Errors.{Result, ok}
use ops_mesh.World.{text}
use ops_mesh.World.Transaction.{ending, transaction-result}
use ops_mesh.Auth.Keys.{
  NewKey, has_prefix, has_key_id, is_active_key, plaintext_of, key_row, insert_key,
  generate_api_key, matching, looked_up, get_api_key_data, revoked_row, revoke_api_key, purpose_tag,
}

-- The operations on the table of keys.
pub data KeyStep : Type 0 where
  generate : NewKey → (now : ℕ) → KeyStep
  revoke : (id : String) → (now : ℕ) → KeyStep

-- No key of that prefix is active, and there is one of it.
abbrev pub IsSpent : String → List ApiKeyRow → Type 0
IsSpent prefix keys =
    (any (has_prefix prefix) keys ≡ true) × (any (is_active_key prefix) keys ≡ false)

none_active :
    (prefix : String) (keys : List ApiKeyRow)
    → any (has_prefix prefix) keys ≡ false
    → find (is_active_key prefix) keys ≡ none
none_active prefix [] h = refl
none_active prefix (k ∷ keys) h = ground (arith, none_active prefix keys)

none_found :
    (prefix : String) (keys : List ApiKeyRow)
    → any (is_active_key prefix) keys ≡ false
    → find (is_active_key prefix) keys ≡ none
none_found prefix [] h = refl
none_found prefix (k ∷ keys) h = ground (arith, none_found prefix keys)

revoked_prefix :
    (prefix id : String) (now : ℕ) (keys : List ApiKeyRow)
    → any (has_prefix prefix) (update_where (has_key_id id) (revoked_row now) keys)
      ≡ any (has_prefix prefix) keys
revoked_prefix prefix id now [] = refl
revoked_prefix prefix id now (k ∷ keys) = ground (arith, revoked_prefix prefix id now keys)

revoked_active :
    (prefix id : String) (now : ℕ) (keys : List ApiKeyRow)
    → any (is_active_key prefix) keys ≡ false
    → any (is_active_key prefix) (update_where (has_key_id id) (revoked_row now) keys) ≡ false
revoked_active prefix id now [] h = refl
revoked_active prefix id now (k ∷ keys) h = ground (arith, revoked_active prefix id now keys)

append_prefix :
    (p : ApiKeyRow → Bool) (keys : List ApiKeyRow) (k : ApiKeyRow)
    → any p (keys ++ k ∷ []) ≡ (if any p keys then true else p k)
append_prefix p [] k = ground arith
append_prefix p (x ∷ keys) k = ground (arith, append_prefix p keys k)

module _ (sha256 : String → String) where
  unfoldable pub key_step : Db → KeyStep → Db
  key_step db (generate k now) = (generate_api_key sha256 db k now).0
  key_step db (revoke id now) = revoke_api_key db id now

  unfoldable pub key_steps : Db → List KeyStep → Db
  unfolding key_step
  key_steps db [] = db
  key_steps db (s ∷ steps) = key_steps (key_step db s) steps

  generated :
      (db : Db) (k : NewKey) (now : ℕ)
      → generate_api_key sha256 db k now ≡ ending db (insert_key sha256 (key_row sha256 k now) db)
  unfolding generate_api_key
  generated db k now = transaction-result (insert_key sha256 (key_row sha256 k now)) db _ refl

  inserted-IsSpent :
      (prefix : String) (db : Db) (row : ApiKeyRow)
      → IsSpent prefix db.api_keys
      → IsSpent prefix (ending db (insert_key sha256 row db)).0.api_keys
  inserted-IsSpent prefix db row (there, spent) =
      elim (Bool-cases (any (has_prefix row.key_prefix) db.api_keys)) [
        | inl taken ↦ rw taken (there, spent)
        | inr free ↦ rw free (
          append_prefix (has_prefix prefix) db.api_keys row ∙ ground (arith, there),
          append_prefix (is_active_key prefix) db.api_keys row
              ∙ ground (arith, spent, differs (Bool-cases (row.key_prefix == prefix)) free),
        )
      ]
    where
      differs :
          ((row.key_prefix == prefix) ≡ true) ⊎ ((row.key_prefix == prefix) ≡ false)
          → any (has_prefix row.key_prefix) db.api_keys ≡ false
          → (row.key_prefix == prefix) ≡ false
      differs (inl e) free = absurd (
          ground (
            arith,
            ap (λ p. any (has_prefix p) db.api_keys) ((eq_iff row.key_prefix prefix).0 e),
            free,
            there,
          ))
      differs (inr e) free = e

  key_step-IsSpent :
      (prefix : String) (db : Db) (s : KeyStep)
      → IsSpent prefix db.api_keys
      → IsSpent prefix (key_step db s).api_keys
  unfolding key_step revoke_api_key
  key_step-IsSpent prefix db (generate k now) h =
      subst (λ r. IsSpent prefix r.0.api_keys) (sym (generated db k now))
        (inserted-IsSpent prefix db (key_row sha256 k now) h)
  key_step-IsSpent prefix db (revoke id now) (there, spent) = (
    revoked_prefix prefix id now db.api_keys ∙ there,
    revoked_active prefix id now db.api_keys spent,
  )

  key_steps-IsSpent :
      (prefix : String) (db : Db) (steps : List KeyStep)
      → IsSpent prefix db.api_keys
      → IsSpent prefix (key_steps db steps).api_keys
  unfolding key_steps
  key_steps-IsSpent prefix db [] h = h
  key_steps-IsSpent prefix db (s ∷ steps) h =
      key_steps-IsSpent prefix (key_step db s) steps (key_step-IsSpent prefix db s h)

  spent-none :
      (plaintext : String) (db : Db)
      → any (is_active_key (slice_to 12 plaintext)) db.api_keys ≡ false
      → get_api_key_data sha256 db plaintext ≡ none
  unfolding get_api_key_data
  spent-none plaintext db h = go (strip_prefix "om_" plaintext)
    where
      go : (o : Option String) → looked_up sha256 db plaintext o ≡ none
      go none = refl
      go (some rest) = rw (none_found (slice_to 12 plaintext) db.api_keys h) refl

  revoked_gone :
      (prefix id : String) (now : ℕ) (keys : List ApiKeyRow)
      → All (λ k. has_prefix prefix k ≡ true → k.id ≡ id) keys
      → any (is_active_key prefix) (update_where (has_key_id id) (revoked_row now) keys) ≡ false
  revoked_gone prefix id now [] h = refl
  revoked_gone prefix id now (k ∷ keys) (mine, h) = elim (Bool-cases (has_prefix prefix k)) [
    | inl e ↦ ground (arith, e, revoked_gone prefix id now keys h, mine e, eq_iff k.id id)
    | inr e ↦ ground (arith, e, revoked_gone prefix id now keys h)
  ]

  vacuous :
      (prefix id : String) (keys : List ApiKeyRow)
      → any (has_prefix prefix) keys ≡ false
      → All (λ k. has_prefix prefix k ≡ true → k.id ≡ id) keys
  vacuous prefix id [] h = tt
  vacuous prefix id (k ∷ keys) h =
      (λ e. absurd (ground (arith, e, h)), vacuous prefix id keys (ground (arith, h)))

  made_key :
      (db db1 : Db) (row got : ApiKeyRow)
      → ending db (insert_key sha256 row db) ≡ (db1, ok got)
      → (any (has_prefix row.key_prefix) db.api_keys ≡ false)
        × (db1.api_keys ≡ db.api_keys ++ row ∷ [])
  made_key db db1 row got h = elim (Bool-cases (any (has_prefix row.key_prefix) db.api_keys)) [
    | inl taken ↦ absurd (ground (arith, taken, h))
    | inr free ↦
        let same : ◌≡◌ {A = Db × Result ApiKeyRow}
            (record db { api_keys = db.api_keys ++ row ∷ [] }, ok row) (db1, ok got) =
          rw free at h in
        (free, sym (ap (λ p. p.0.api_keys) same))
  ]

  found_new :
      (db1 db : Db) (k : NewKey) (now : ℕ)
      → db1.api_keys ≡ db.api_keys ++ key_row sha256 k now ∷ []
      → any (has_prefix (key_row sha256 k now).key_prefix) db.api_keys ≡ false
      → get_api_key_data sha256 db1 (plaintext_of k.purpose k.random)
        ≡ some (record { key_id = k.id; subject = k.subject; purpose = k.purpose })
  unfolding get_api_key_data plaintext_of
  found_new db1 db k now rows free =
      let new : ApiKeyRow = key_row sha256 k now in
      let mine : is_active_key new.key_prefix new ≡ true = ground (arith, eq_refl new.key_prefix) in
      let found : find (is_active_key new.key_prefix) db1.api_keys ≡ some new =
        ap (find (is_active_key new.key_prefix)) rows
        ∙ find-append (is_active_key new.key_prefix) db.api_keys (new ∷ [])
            (none_active new.key_prefix db.api_keys free)
        ∙ rw mine refl in
      ap (looked_up sha256 db1 (plaintext_of k.purpose k.random))
        (strip_prefix-append "om_" (text (purpose_tag k.purpose ∷ "_" ∷ k.random ∷ [])))
      ∙ ap (matching sha256 (plaintext_of k.purpose k.random)) found
      ∙ rw (eq_refl (sha256 (plaintext_of k.purpose k.random))) refl

  -- Where a key could be made, its plaintext leads to its id, its subject and its purpose. Once it is
  -- revoked by that id, no sequence of further keys made and revoked, with whatever random parts, makes
  -- the plaintext lead to anything again.
  pub revoked_for_good :
      (db db1 : Db) (k : NewKey) (row : ApiKeyRow) (now at : ℕ) (steps : List KeyStep)
      → generate_api_key sha256 db k now ≡ (db1, ok row)
      → (get_api_key_data sha256 db1 (plaintext_of k.purpose k.random)
          ≡ some (record { key_id = k.id; subject = k.subject; purpose = k.purpose }))
        × (get_api_key_data sha256
              (key_steps (revoke_api_key db1 k.id at) steps)
              (plaintext_of k.purpose k.random)
            ≡ none)
  revoked_for_good db db1 k row now at steps made =
      let new : ApiKeyRow = key_row sha256 k now in
      let (free, rows) = made_key db db1 new row (sym (generated db k now) ∙ made) in
      let spent : IsSpent new.key_prefix (revoke_api_key db1 k.id at).api_keys =
        unfold revoke_api_key in
        (
          revoked_prefix new.key_prefix k.id at db1.api_keys
              ∙ ap (any (has_prefix new.key_prefix)) rows
              ∙ append_prefix (has_prefix new.key_prefix) db.api_keys new
              ∙ ground (arith, free, eq_refl new.key_prefix),
          revoked_gone new.key_prefix k.id at db1.api_keys (
              subst (All (λ x. has_prefix new.key_prefix x ≡ true → x.id ≡ k.id)) (sym rows) (
                All-append (λ x. has_prefix new.key_prefix x ≡ true → x.id ≡ k.id) db.api_keys
                  (new ∷ []) (vacuous new.key_prefix k.id db.api_keys free) (λ _. refl, tt))),
        ) in
      (
        found_new db1 db k now rows free,
        spent-none (plaintext_of k.purpose k.random) (key_steps (revoke_api_key db1 k.id at) steps)
            (key_steps-IsSpent new.key_prefix (revoke_api_key db1 k.id at) steps spent).1,
      )
