-- ===== src/Auth.antt =====
-- The tables of users, API keys, reauthentication tokens and audit entries (cmd/brain/db.go), their
-- statements, and what cmd/brain/auth_store.go takes from Go's library: hashes, encodings and clocks.
pub mod Passwords
pub mod ApiKeys
pub mod Reauth
pub mod Keeping
pub mod Operations
pub mod History
use ovek.Common.{
  ℕ, String, Bool, true, false, not, ◌&&◌, ◌||◌, Option, none, some, List, [], ◌∷◌, ◌++◌, ◌==◌,
  if◌then◌else◌,
}
use ovek.Scrubber.{Bytes}
use ovek.Store.{Failure, constraint_failed, err_no_rows, err_invalid_api_key, auth_failure}
use ovek.Store.Sql.{Result, ok, err, ◌>>=◌, ◌>>◌, select_row, count_where, exists_where}

-- crypto/sha256 with encoding/hex, encoding/json, crypto/pbkdf2, encoding/base64, strconv and time.
pub record Platform : Type 0 where
  pub hash_opaque_credential : String → String
  pub json_marshal : List (String × String) → Option String
  -- the password, the salt, the iterations and the length
  pub pbkdf2_key : String → Bytes → ℕ → ℕ → Option Bytes
  pub encode_base64 : Bytes → String
  pub decode_base64 : String → Option Bytes
  pub atoi : String → Option ℕ
  -- RFC 3339 texts of instants, in nanoseconds
  pub format_time : ℕ → String
  pub parse_time : String → Option ℕ

pub record AdminUserRow : Type 0 where
  pub id : String
  pub username : String
  pub password_hash : String
  pub created_at : String
  pub disabled_at : Option String
  pub last_reauth_at : Option String

pub record ApiKeyRow : Type 0 where
  pub id : String
  pub user_id : String
  pub label : String
  pub key_hash : String
  pub created_at : String
  pub last_used_at : Option String
  pub revoked_at : Option String

pub record ReauthTokenRow : Type 0 where
  pub id : String
  pub user_id : String
  pub api_key_id : String
  pub token_hash : String
  pub scope : String
  pub created_at : String
  pub expires_at : String
  pub used_at : Option String
  pub revoked_at : Option String

-- auditLogRecord
pub record AuditLogRow : Type 0 where
  pub id : String
  pub user_id : Option String
  pub api_key_id : Option String
  pub event_type : String
  pub project_name : Option String
  pub details_json : String
  pub created_at : String

pub record AuthDb : Type 0 where
  pub admin_users : List AdminUserRow
  pub api_keys : List ApiKeyRow
  pub reauth_tokens : List ReauthTokenRow
  pub audit_logs : List AuditLogRow

-- authPrincipal
pub record Principal : Type 0 where
  pub user_id : String
  pub username : String
  pub api_key_id : String

-- What an operation draws: a random id and secret, an id for its audit entry, and the clock.
pub record Draws : Type 0 where
  pub credential_id : String
  pub secret : String
  pub audit_id : String
  pub now : String

abbrev pub is_set : Option String → Bool
is_set none = false
is_set (some _) = true

abbrev pub has_user_id : String → AdminUserRow → Bool
has_user_id user_id user = user.id == user_id

abbrev pub has_key_id : String → ApiKeyRow → Bool
has_key_id key_id key = key.id == key_id

abbrev pub has_reauth_id : String → ReauthTokenRow → Bool
has_reauth_id token_id token = token.id == token_id

-- disabled_at IS NULL
abbrev pub is_enabled : AdminUserRow → Bool
is_enabled user = not (is_set user.disabled_at)

unfoldable pub count_admin_users : AuthDb → ℕ
count_admin_users db = count_where is_enabled db.admin_users

-- INSERT INTO admin_users: the id is a primary key and the username is unique.
unfoldable pub insert_admin_user : AdminUserRow → AuthDb → Result AuthDb
insert_admin_user user db =
    if exists_where (has_user_id user.id) db.admin_users
      || exists_where (λ (u : AdminUserRow). u.username == user.username) db.admin_users
    then err constraint_failed
    else ok (record db { admin_users = db.admin_users ++ user ∷ [] })

-- INSERT INTO api_keys
unfoldable pub insert_api_key : ApiKeyRow → AuthDb → Result AuthDb
insert_api_key key db =
    if exists_where (has_key_id key.id) db.api_keys
      || not (exists_where (has_user_id key.user_id) db.admin_users)
    then err constraint_failed
    else ok (record db { api_keys = db.api_keys ++ key ∷ [] })

-- INSERT INTO reauth_tokens
unfoldable pub insert_reauth_token : ReauthTokenRow → AuthDb → Result AuthDb
insert_reauth_token token db =
    if exists_where (has_reauth_id token.id) db.reauth_tokens
      || not (exists_where (has_user_id token.user_id) db.admin_users)
      || not (exists_where (has_key_id token.api_key_id) db.api_keys)
    then err constraint_failed
    else ok (record db { reauth_tokens = db.reauth_tokens ++ token ∷ [] })

-- A foreign key that may be NULL.
abbrev pub refers : {A : Type 0} → Option String → (String → A → Bool) → List A → Bool
refers none has_id rows = true
refers (some id) has_id rows = exists_where (has_id id) rows

-- The defaults of insertAuditLogQueryer
unfoldable pub with_defaults : String → String → AuditLogRow → AuditLogRow
with_defaults audit_id now entry = record entry {
  id = if entry.id == "" then audit_id else entry.id;
  details_json = if entry.details_json == "" then "{}" else entry.details_json;
  created_at = if entry.created_at == "" then now else entry.created_at;
}

-- INSERT INTO audit_logs
unfoldable pub insert_audit_row : AuditLogRow → AuthDb → Result AuthDb
insert_audit_row entry db =
    if exists_where (λ (e : AuditLogRow). e.id == entry.id) db.audit_logs
      || not (refers entry.user_id has_user_id db.admin_users)
      || not (refers entry.api_key_id has_key_id db.api_keys)
    then err constraint_failed
    else ok (record db { audit_logs = db.audit_logs ++ entry ∷ [] })

unfoldable pub insert_audit_log : String → String → AuditLogRow → AuthDb → Result AuthDb
insert_audit_log audit_id now entry db = insert_audit_row (with_defaults audit_id now entry) db

-- `_ = insertAuditLog(…)`: a failure is dropped.
unfoldable pub try_audit_log : String → String → AuditLogRow → AuthDb → AuthDb
try_audit_log audit_id now entry db = elim (insert_audit_log audit_id now entry db) [
  | ok db' ↦ db'
  | err _ ↦ db
]

unfoldable pub get_admin_user_by_id : String → AuthDb → Result AdminUserRow
get_admin_user_by_id user_id db = elim (select_row (has_user_id user_id) db.admin_users) [
  | none ↦ err err_no_rows
  | some user ↦ ok user
]

unfoldable pub get_reauth_token_by_id : String → AuthDb → Option ReauthTokenRow
get_reauth_token_by_id token_id db = select_row (has_reauth_id token_id) db.reauth_tokens

unfoldable pub auth_failure_reason : Failure → String
auth_failure_reason (auth_failure reason) = if reason == "" then "invalid" else reason
auth_failure_reason err_invalid_api_key = "invalid"
auth_failure_reason _ = ""

module _ (platform : Platform) where
  unfoldable pub must_details_json : List (String × String) → String
  must_details_json details = elim (platform.json_marshal details) [
    | none ↦ "{}"
    | some payload ↦ payload
  ]

  -- The entry that an operation of a principal writes.
  abbrev pub entry_of : Principal → String → List (String × String) → String → AuditLogRow
  entry_of principal event_type details now = record {
    id = "";
    user_id = some principal.user_id;
    api_key_id = some principal.api_key_id;
    event_type = event_type;
    project_name = none;
    details_json = must_details_json details;
    created_at = now;
  }
