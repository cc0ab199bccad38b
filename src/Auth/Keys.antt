-- ===== src/Auth/Keys.antt =====
-- apps/api/src/modules/auth/api-key-store.ts, and the routes of apikeys/api-keys.routes.ts behind
-- their guards.
use ops_mesh.Base.{
  ℕ, Bool, true, not, Option, none, some, List, [], ◌∷◌, ◌++◌, String, ◌==◌, string_eq,
  if◌then◌else◌, ◌&&◌, any, find, is_some, slice_to, strip_prefix, take, sort_desc_by, update_where,
}
use ops_mesh.Types.{ApiKeyPurpose, event_ingest}
use ops_mesh.Db.{Db, ApiKeyRow, ServiceRow}
use ops_mesh.Errors.{app, other, Result, ok, err, not_found_error, conflict_error}
use ops_mesh.World.{text, transaction}

pub record KeyData : Type 0 where
  pub key_id : String
  pub subject : String
  pub purpose : ApiKeyPurpose

-- `purpose.slice(0, 3)`
abbrev pub purpose_tag : ApiKeyPurpose → String
purpose_tag event_ingest = "eve"
purpose_tag ApiKeyPurpose.admin = "adm"

abbrev pub has_prefix : String → ApiKeyRow → Bool
has_prefix prefix k = k.key_prefix == prefix

abbrev pub has_key_id : String → ApiKeyRow → Bool
has_key_id id k = k.id == id

abbrev pub is_active_key : String → ApiKeyRow → Bool
is_active_key prefix k = has_prefix prefix k && not (is_some k.revoked_at)

-- The plaintext of a key with its random part.
unfoldable pub plaintext_of : ApiKeyPurpose → String → String
plaintext_of purpose random = text ("om_" ∷ purpose_tag purpose ∷ "_" ∷ random ∷ [])

pub record NewKey : Type 0 where
  pub id : String
  pub name : String
  pub subject : String
  pub purpose : ApiKeyPurpose
  pub created_by : String
  pub random : String

-- `sha256` is the hash of the crypto module.
module _ (sha256 : String → String) where
  abbrev pub key_row : NewKey → ℕ → ApiKeyRow
  key_row k now = record {
    id = k.id;
    name = k.name;
    key_prefix = slice_to 12 (plaintext_of k.purpose k.random);
    key_hash = sha256 (plaintext_of k.purpose k.random);
    subject = k.subject;
    purpose = k.purpose;
    created_by = k.created_by;
    created_at = now;
    revoked_at = none;
  }

  abbrev pub insert_key : ApiKeyRow → Db → Result (Db × ApiKeyRow)
  insert_key row db =
      if any (has_prefix row.key_prefix) db.api_keys
      then err (other "unique violation")
      else ok (record db { api_keys = db.api_keys ++ row ∷ [] }, row)

  unfoldable pub generate_api_key : Db → NewKey → ℕ → Db × Result ApiKeyRow
  generate_api_key db k now = transaction (insert_key (key_row k now)) db

  abbrev pub matching : String → Option ApiKeyRow → Option KeyData
  matching plaintext none = none
  matching plaintext (some k) =
      if not (k.key_hash == sha256 plaintext)
      then none
      else some (record { key_id = k.id; subject = k.subject; purpose = k.purpose })

  -- The look-up, where the text after `om_` is there.
  abbrev pub looked_up : Db → String → Option String → Option KeyData
  looked_up db plaintext none = none
  looked_up db plaintext (some _) =
      matching plaintext (find (is_active_key (slice_to 12 plaintext)) db.api_keys)

  unfoldable pub get_api_key_data : Db → String → Option KeyData
  get_api_key_data db plaintext = looked_up db plaintext (strip_prefix "om_" plaintext)

abbrev pub revoked_row : ℕ → ApiKeyRow → ApiKeyRow
revoked_row now k = record k { revoked_at = some now }

unfoldable pub revoke_api_key : Db → String → ℕ → Db
revoke_api_key db id now = record db {
  api_keys = update_where (has_key_id id) (revoked_row now) db.api_keys;
}

unfoldable pub list_api_keys : Db → ℕ → List ApiKeyRow
list_api_keys db limit = take limit (sort_desc_by (λ k. k.created_at) db.api_keys)

-- `WHERE id = $1 AND deleted_at IS NULL`
abbrev pub is_service : String → ServiceRow → Bool
is_service id s = s.id == id && not s.deleted

unfoldable pub require_service_exists : Db → String → Result (Unit {0})
require_service_exists db service_id =
    if any (is_service service_id) db.services
    then ok tt
    else err (app (not_found_error (text ("Service " ∷ service_id ∷ " not found" ∷ []))))

abbrev pub is_other : Option String → String → Bool
is_other none id = true
is_other (some excluded) id = not (id == excluded)

unfoldable pub service_name_exists : Db → String → Option String → Bool
service_name_exists db name exclude =
    any (λ s. s.name == name && is_other exclude s.id && not s.deleted) db.services

unfoldable pub ensure_unique_service_name : Db → String → Option String → Result (Unit {0})
unfolding service_name_exists
ensure_unique_service_name db name exclude =
    if service_name_exists db name exclude
    then err (app (conflict_error (text ("Service name '" ∷ name ∷ "' already exists" ∷ []))))
    else ok tt

-- POST / and POST /:id/revoke of the routes.
module _ (sha256 : String → String) where
  unfoldable pub create_key : Db → NewKey → ℕ → Db × Result ApiKeyRow
  create_key db k now = elim (require_service_exists db k.subject) [
    | err e ↦ (db, err e)
    | ok _ ↦ generate_api_key sha256 db k now
  ]

unfoldable pub revoke_key : Db → String → ℕ → Db × Result (Unit {0})
revoke_key db id now =
    if any (has_key_id id) (list_api_keys db 500)
    then (revoke_api_key db id now, ok tt)
    else (db, err (app (not_found_error "API key not found")))
