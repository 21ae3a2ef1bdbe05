-- ===== src/Auth/Reauth.antt =====
-- Reauthentication and passwords: issueReauthToken, requireReauthToken and changeAdminPassword of
-- cmd/brain/auth_store.go, and the checks of requireCriticalReauth in cmd/brain/auth_handlers.go.
-- An instant is a number of nanoseconds. An operation that fails may leave an audit entry, so each
-- returns its result and the tables.
pub mod Keeping
pub mod Acceptance
use ovek.Common.{
  ℕ, ◌+◌, String, Bool, true, false, not, ◌&&◌, ◌||◌, Option, none, some, List, [], ◌∷◌, ◌==◌, ltb,
  trim_space, if◌then◌else◌,
}
use ovek.Scrubber.{Bytes}
use ovek.Store.{Failure, err_no_rows, err_invalid_password, err_reauth_required, derivation_failed}
use ovek.Store.Sql.{Result, ok, err, ◌>>=◌, ◌>>◌, update_where}
use ovek.Credentials.{new_opaque_credential, parse_opaque_credential}
use ovek.Auth.{
  Platform, AdminUserRow, ReauthTokenRow, AuditLogRow, AuthDb, Principal, Draws, is_set,
  has_user_id, has_reauth_id, insert_reauth_token, insert_audit_log, try_audit_log,
  get_admin_user_by_id, get_reauth_token_by_id, must_details_json, entry_of,
}
use ovek.Auth.Passwords.{hash_password, verify_password}

abbrev pub credential_prefix_reauth : String
credential_prefix_reauth = "rt"

abbrev pub reauth_scope_critical_mutation : String
reauth_scope_critical_mutation = "critical_mutation"

-- Ten minutes.
abbrev pub reauth_token_ttl : ℕ
reauth_token_ttl = 600000000000

abbrev pub with_last_reauth : String → AdminUserRow → AdminUserRow
with_last_reauth now user = record user { last_reauth_at = some now }

abbrev pub with_password_hash : String → AdminUserRow → AdminUserRow
with_password_hash password_hash user = record user { password_hash = password_hash }

abbrev pub token_used : String → ReauthTokenRow → ReauthTokenRow
token_used now token = record token { used_at = some now }

abbrev pub token_revoked : String → ReauthTokenRow → ReauthTokenRow
token_revoked now token = record token { revoked_at = some now }

-- user_id = ? AND revoked_at IS NULL
abbrev pub is_open_token : String → ReauthTokenRow → Bool
is_open_token user_id token = token.user_id == user_id && not (is_set token.revoked_at)

-- A transaction: its tables if it succeeds, those of before if it fails.
abbrev pub commit : {A : Type 0} → AuthDb → Result (A × AuthDb) → Result A × AuthDb
commit db (ok (value, db')) = (ok value, db')
commit db (err failure) = (err failure, db)

module _ (platform : Platform) where
  -- The row of a token that issueReauthToken inserts.
  unfoldable pub reauth_token_row : Draws → ℕ → Principal → ReauthTokenRow
  reauth_token_row draws now principal = record {
    id = draws.credential_id;
    user_id = principal.user_id;
    api_key_id = principal.api_key_id;
    token_hash =
        (new_opaque_credential platform.hash_opaque_credential credential_prefix_reauth
          draws.credential_id draws.secret).2;
    scope = reauth_scope_critical_mutation;
    created_at = platform.format_time now;
    expires_at = platform.format_time (now + reauth_token_ttl);
    used_at = none;
    revoked_at = none;
  }

  -- The transaction of issueReauthToken: the token and its expiry.
  unfoldable pub issue_tx : Draws → ℕ → Principal → AuthDb → Result ((String × String) × AuthDb)
  issue_tx draws now principal db = do
    db1 ← insert_reauth_token (reauth_token_row draws now principal) db
    db2 ←
        insert_audit_log draws.audit_id draws.now
          (entry_of platform principal "auth.reauth_succeeded"
            (("scope", reauth_scope_critical_mutation) ∷ []) (platform.format_time now))
          (record db1 {
            admin_users =
                update_where (has_user_id principal.user_id)
                  (with_last_reauth (platform.format_time now)) db1.admin_users;
          })
    ok (
      (
        (new_opaque_credential platform.hash_opaque_credential credential_prefix_reauth
            draws.credential_id draws.secret).0,
        platform.format_time (now + reauth_token_ttl),
      ),
      db2,
    )

  -- issueReauthToken after its lookup of the user.
  unfoldable pub issue_for :
      Draws → ℕ → Principal → String → AdminUserRow → AuthDb → Result (String × String) × AuthDb
  issue_for draws now principal password user db =
      if not (verify_password platform user.password_hash password)
      then (
        err err_invalid_password,
        try_audit_log draws.audit_id draws.now
            (entry_of platform principal "auth.reauth_failed" (("reason", "invalid_password") ∷ [])
              (platform.format_time now))
            db,
      )
      else commit db (issue_tx draws now principal db)

  unfoldable pub issue_reauth_token :
      Draws → ℕ → Principal → String → AuthDb → Result (String × String) × AuthDb
  issue_reauth_token draws now principal password db =
      elim (get_admin_user_by_id principal.user_id db) [
        | err failure ↦ (err failure, db)
        | ok user ↦ issue_for draws now principal password user db
      ]

  -- time.Parse, and whether the clock is past the instant
  abbrev pub has_expired : ℕ → String → Bool
  has_expired now expires_at = elim (platform.parse_time expires_at) [
    | none ↦ true
    | some instant ↦ ltb instant now
  ]

  -- The checks of requireReauthToken on the row.
  unfoldable pub is_sufficient : ℕ → Principal → String → String → ReauthTokenRow → Bool
  is_sufficient now principal token_hash scope token =
      if not (token.user_id == principal.user_id)
        || not (token.api_key_id == principal.api_key_id)
        || not (token.scope == scope)
      then false
      else if is_set token.revoked_at
      then false
      else if not (token.token_hash == token_hash)
      then false
      else not (has_expired now token.expires_at)

  unfoldable pub check_reauth :
      ℕ → Principal → String → String → Option ReauthTokenRow → AuthDb → Result AuthDb
  unfolding is_sufficient
  check_reauth now principal token_hash scope none db = err err_reauth_required
  check_reauth now principal token_hash scope (some token) db =
      if is_sufficient now principal token_hash scope token
      then ok (record db {
        reauth_tokens =
            update_where (has_reauth_id token.id) (token_used (platform.format_time now))
              db.reauth_tokens;
      })
      else err err_reauth_required

  unfoldable pub require_reauth_token : ℕ → Principal → String → String → AuthDb → Result AuthDb
  require_reauth_token now principal token scope db =
      if trim_space token == ""
      then err err_reauth_required
      else elim (parse_opaque_credential platform.hash_opaque_credential credential_prefix_reauth
          token) [
            | none ↦ err err_reauth_required
            | some (token_id, token_hash) ↦
                check_reauth now principal token_hash scope (get_reauth_token_by_id token_id db) db
          ]

  -- The transaction of changeAdminPassword.
  unfoldable pub change_tx : Draws → Principal → String → AuthDb → Result (Unit {0} × AuthDb)
  change_tx draws principal password_hash db = do
    db' ←
        insert_audit_log draws.audit_id draws.now
          (record (entry_of platform principal "auth.password_changed" [] draws.now) {
            details_json = "{}";
          })
          (record db {
            admin_users =
                update_where (has_user_id principal.user_id) (with_password_hash password_hash)
                  db.admin_users;
            reauth_tokens =
                update_where (is_open_token principal.user_id) (token_revoked draws.now)
                  db.reauth_tokens;
          })
    ok (tt, db')

  -- changeAdminPassword after its lookup of the user.
  unfoldable pub change_password_of :
      Draws
      → Bytes
      → Principal
      → String
      → String
      → AdminUserRow
      → AuthDb
      → Result (Unit {0}) × AuthDb
  change_password_of draws salt principal current_password new_password user db =
      if not (verify_password platform user.password_hash current_password)
      then (
        err err_invalid_password,
        try_audit_log draws.audit_id draws.now
            (entry_of platform principal "auth.password_change_failed"
              (("reason", "invalid_current_password") ∷ []) draws.now)
            db,
      )
      else elim (hash_password platform salt new_password) [
        | none ↦ (err derivation_failed, db)
        | some password_hash ↦ commit db (change_tx draws principal password_hash db)
      ]

  unfoldable pub change_admin_password :
      Draws → Bytes → Principal → String → String → AuthDb → Result (Unit {0}) × AuthDb
  change_admin_password draws salt principal current_password new_password db =
      let current = trim_space current_password in
      let new = trim_space new_password in
      if current == "" || new == ""
      then (err err_invalid_password, db)
      else elim (get_admin_user_by_id principal.user_id db) [
        | err failure ↦ (err failure, db)
        | ok user ↦ change_password_of draws salt principal current new user db
      ]

  -- The audit entry of requireCriticalReauth for a request that it refuses.
  unfoldable pub audit_rejection : Draws → ℕ → Principal → String → Failure → AuthDb → AuthDb
  audit_rejection draws now principal event_type err_reauth_required db =
      try_audit_log draws.audit_id draws.now
        (entry_of platform principal "auth.reauth_rejected"
          (("event", event_type) ∷ ("scope", reauth_scope_critical_mutation) ∷ [])
          (platform.format_time now))
        db
  audit_rejection draws now principal event_type _ db = db

  -- requireCriticalReauth under authModeProd, for a principal: whether the handler below it runs.
  unfoldable pub require_critical_reauth :
      Draws → ℕ → Principal → String → String → String → AuthDb → Bool × AuthDb
  require_critical_reauth draws now principal token event_type project_name db =
      elim (require_reauth_token now principal token reauth_scope_critical_mutation db) [
        | err failure ↦ (false, audit_rejection draws now principal event_type failure db)
        | ok db' ↦ (
          true,
          try_audit_log draws.audit_id draws.now
              (record (entry_of platform principal event_type
                (("scope", reauth_scope_critical_mutation) ∷ []) (platform.format_time now)) {
                  project_name =
                      if trim_space project_name == ""
                      then none
                      else some (trim_space project_name);
                })
              db',
        )
      ]
