-- ===== src/Auth/ApiKeys.antt =====
-- The first administrator and API keys: bootstrapAdminUser, createAPIKey, listAPIKeys,
-- createLabeledAPIKey, revokeAPIKey and validateAPIKey of cmd/brain/auth_store.go.
pub mod Acceptance
use ovek.Common.{
  ℕ, String, Bool, true, false, not, ◌&&◌, ◌||◌, Option, none, some, List, [], ◌∷◌, ◌++◌, ◌==◌, map,
  ltb, nat_eq, text_lt, trim_space, if◌then◌else◌,
}
use ovek.Scrubber.{Bytes}
use ovek.Store.{
  err_auth_bootstrap_disabled, auth_failure, err_api_key_not_found, err_invalid_password,
  api_key_label_required, derivation_failed,
}
use ovek.Store.Sql.{
  Result, ok, err, ◌>>=◌, ◌>>◌, select, select_row, count_where, update_where, order_by,
}
use ovek.Jobs.{or_blank}
use ovek.Credentials.{new_opaque_credential, parse_opaque_credential}
use ovek.Auth.{
  Platform, AdminUserRow, ApiKeyRow, AuthDb, Principal, Draws, AuditLogRow, is_set, is_enabled,
  has_user_id, has_key_id, count_admin_users, insert_admin_user, insert_api_key, insert_audit_log,
  must_details_json, entry_of,
}
use ovek.Auth.Passwords.{hash_password}

abbrev pub credential_prefix_api_key : String
credential_prefix_api_key = "ak"

-- APIKeySummary
pub record ApiKeySummary : Type 0 where
  pub id : String
  pub label : String
  pub created_at : String
  pub last_used_at : String
  pub revoked_at : String

-- CreateAPIKeyResponse
pub record CreatedApiKey : Type 0 where
  pub id : String
  pub label : String
  pub api_key : String
  pub created_at : String

abbrev pub key_used : String → ApiKeyRow → ApiKeyRow
key_used now key = record key { last_used_at = some now }

abbrev pub key_revoked : String → ApiKeyRow → ApiKeyRow
key_revoked now key = record key { revoked_at = some now }

-- id = ? AND user_id = ? AND revoked_at IS NULL
abbrev pub is_revocable : String → String → ApiKeyRow → Bool
is_revocable key_id user_id key =
    key.id == key_id && key.user_id == user_id && not (is_set key.revoked_at)

unfoldable pub summary_of : ApiKeyRow → ApiKeySummary
summary_of key = record {
  id = key.id;
  label = key.label;
  created_at = key.created_at;
  last_used_at = or_blank key.last_used_at;
  revoked_at = or_blank key.revoked_at;
}

unfoldable pub list_api_keys : String → AuthDb → List ApiKeySummary
list_api_keys user_id db = map summary_of (
    order_by (λ (a : ApiKeyRow) (b : ApiKeyRow). text_lt a.created_at b.created_at)
      (select (λ (key : ApiKeyRow). key.user_id == user_id) db.api_keys))

module _ (platform : Platform) where
  -- The row of a key that createAPIKeyTx inserts.
  unfoldable pub api_key_row : Draws → String → String → ApiKeyRow
  api_key_row draws user_id label = record {
    id = draws.credential_id;
    user_id = user_id;
    label = label;
    key_hash =
        (new_opaque_credential platform.hash_opaque_credential credential_prefix_api_key
          draws.credential_id draws.secret).2;
    created_at = draws.now;
    last_used_at = none;
    revoked_at = none;
  }

  -- The plaintext key and its id.
  unfoldable pub create_api_key_tx :
      Draws → String → String → AuthDb → Result (String × String × AuthDb)
  create_api_key_tx draws user_id label db = do
    db' ← insert_api_key (api_key_row draws user_id label) db
    let (api_key, api_key_id, api_key_hash) =
        new_opaque_credential platform.hash_opaque_credential credential_prefix_api_key
          draws.credential_id draws.secret
    ok (api_key, api_key_id, db')

  unfoldable pub create_api_key :
      Draws → String → String → AuthDb → Result (String × String × AuthDb)
  create_api_key draws user_id label db = create_api_key_tx draws user_id label db

  -- The transaction of bootstrapAdminUser.
  unfoldable pub bootstrap_tx : Draws → String → String → String → AuthDb → Result (String × AuthDb)
  bootstrap_tx draws user_id username password_hash db = do
    db1 ←
        insert_admin_user
          (record {
            id = user_id;
            username = username;
            password_hash = password_hash;
            created_at = draws.now;
            disabled_at = none;
            last_reauth_at = none;
          })
          db
    created ← create_api_key_tx draws user_id "bootstrap" db1
    let principal : Principal = record {
      user_id = user_id;
      username = username;
      api_key_id = created.1;
    }
    db3 ←
        insert_audit_log draws.audit_id draws.now
          (entry_of platform principal "auth.bootstrap_completed" (("username", username) ∷ [])
            draws.now)
          created.2
    ok (created.0, db3)

  -- bootstrapAdminUser, with the random user id and salt
  unfoldable pub bootstrap_admin_user :
      Draws → String → Bytes → String → String → AuthDb → Result (String × AuthDb)
  bootstrap_admin_user draws user_id salt username password db =
      if trim_space username == "" || trim_space password == ""
      then err err_invalid_password
      else elim (hash_password platform salt (trim_space password)) [
        | none ↦ err derivation_failed
        | some password_hash ↦
            if ltb 0 (count_admin_users db)
            then err err_auth_bootstrap_disabled
            else bootstrap_tx draws user_id (trim_space username) password_hash db
      ]

  unfoldable pub create_labeled_api_key :
      Draws → Principal → String → AuthDb → Result (CreatedApiKey × AuthDb)
  create_labeled_api_key draws principal label db =
      let trimmed = trim_space label in
      if trimmed == "" then err api_key_label_required else (do
        created ← create_api_key_tx draws principal.user_id trimmed db
        db2 ←
            insert_audit_log draws.audit_id draws.now
              (entry_of platform principal "auth.api_key_created"
                (("keyId", created.1) ∷ ("label", trimmed) ∷ []) draws.now)
              created.2
        ok (
          record { id = created.1; label = trimmed; api_key = created.0; created_at = draws.now },
          db2,
        ))

  unfoldable pub revoke_api_key : Draws → Principal → String → AuthDb → Result AuthDb
  revoke_api_key draws principal key_id db =
      let trimmed = trim_space key_id in
      if trimmed == ""
        || nat_eq (count_where (is_revocable trimmed principal.user_id) db.api_keys) 0
      then err err_api_key_not_found
      else insert_audit_log draws.audit_id draws.now
          (entry_of platform principal "auth.api_key_revoked" (("keyId", trimmed) ∷ []) draws.now)
          (record db {
            api_keys =
                update_where (is_revocable trimmed principal.user_id) (key_revoked draws.now)
                  db.api_keys;
          })

  -- The checks of validateAPIKey on the row of the join.
  unfoldable pub check_api_key :
      String → String → ApiKeyRow → AdminUserRow → AuthDb → Result (Principal × AuthDb)
  check_api_key now api_key_hash key user db =
      if is_set user.disabled_at
      then err (auth_failure "user_disabled")
      else if is_set key.revoked_at
      then err (auth_failure "revoked")
      else if not (key.key_hash == api_key_hash)
      then err (auth_failure "invalid")
      else ok (
        record { user_id = key.user_id; username = user.username; api_key_id = key.id },
        record db { api_keys = update_where (has_key_id key.id) (key_used now) db.api_keys },
      )

  -- api_keys JOIN admin_users ON admin_users.id = api_keys.user_id WHERE api_keys.id = ?
  unfoldable pub join_key : String → AuthDb → Option (ApiKeyRow × AdminUserRow)
  join_key api_key_id db = elim (select_row (has_key_id api_key_id) db.api_keys) [
    | none ↦ none
    | some key ↦ (elim (select_row (has_user_id key.user_id) db.admin_users) [
      | none ↦ none
      | some user ↦ some (key, user)
    ])
  ]

  unfoldable pub check_joined :
      String → String → Option (ApiKeyRow × AdminUserRow) → AuthDb → Result (Principal × AuthDb)
  check_joined now api_key_hash none db = err (auth_failure "not_found")
  check_joined now api_key_hash (some (key, user)) db = check_api_key now api_key_hash key user db

  unfoldable pub validate_api_key : String → String → AuthDb → Result (Principal × AuthDb)
  validate_api_key now plaintext db =
      if trim_space plaintext == ""
      then err (auth_failure "missing")
      else elim (parse_opaque_credential platform.hash_opaque_credential credential_prefix_api_key
          plaintext) [
            | none ↦ err (auth_failure "malformed")
            | some (api_key_id, api_key_hash) ↦
                check_joined now api_key_hash (join_key api_key_id db) db
          ]
