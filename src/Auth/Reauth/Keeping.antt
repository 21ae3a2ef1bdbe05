-- ===== src/Auth/Reauth/Keeping.antt =====
-- Each operation of cmd/brain/auth_store.go on reauthentication and passwords keeps revoked keys and
-- administrators.
use ovek.Common.{
  ℕ, ◌≡◌, refl, String, ◌||◌, Option, none, some, ◌==◌, trim_space, Bool-cases, Option-cases, inl,
  inr,
}
use ovek.Scrubber.{Bytes}
use ovek.Store.{Failure, err_reauth_required}
use ovek.Store.Sql.{Result, ok, err, bind-ok, ok_inj, Result-cases}
use ovek.Credentials.{parse_opaque_credential}
use ovek.Auth.{
  Platform, AdminUserRow, ReauthTokenRow, AuthDb, Principal, Draws, has_user_id,
  get_admin_user_by_id, get_reauth_token_by_id,
}
use ovek.Auth.Passwords.{hash_password, verify_password}
use ovek.Auth.Reauth.{
  credential_prefix_reauth, commit, reauth_token_row, issue_tx, issue_for, issue_reauth_token,
  is_sufficient, check_reauth, require_reauth_token, change_tx, change_password_of,
  change_admin_password, audit_rejection, require_critical_reauth, with_last_reauth,
  with_password_hash, reauth_scope_critical_mutation,
}
use ovek.Auth.Keeping.{
  Keeps, Keeps-refl, Keeps-trans, Keeps-tables, Keeps-audit, Keeps-try_audit, Keeps-token,
}
use ovek.Auth.Operations.{Keeps-result, Keeps-users}

Keeps-commit :
    {A : Type 0} (db : AuthDb) (r : Result (A × AuthDb))
    → ((a : A × AuthDb) → r ≡ ok a → Keeps db a.1)
    → Keeps db (commit db r).1
Keeps-commit db (ok a) k = k a refl
Keeps-commit db (err e) k = Keeps-refl db

module _ (platform : Platform) where
  Keeps-issue_tx :
      (draws : Draws) (now : ℕ) (principal : Principal) (db : AuthDb)
      (r : (String × String) × AuthDb)
      → issue_tx platform draws now principal db ≡ ok r
      → Keeps db r.1
  unfolding issue_tx
  Keeps-issue_tx draws now principal db r h =
      let (db1, inserted, rest) = bind-ok _ _ h in
      let (db2, logged, done) = bind-ok _ _ rest in
      Keeps-result db _ db2 done (
        Keeps-trans (Keeps-token (reauth_token_row platform draws now principal) db inserted) (
          Keeps-trans
            (Keeps-users platform (has_user_id principal.user_id)
              (with_last_reauth (platform.format_time now)) db1 (λ user. refl))
            (Keeps-audit _ _ _ _ logged)))

  Keeps-issue_for :
      (draws : Draws) (now : ℕ) (principal : Principal) (password : String) (user : AdminUserRow)
      (db : AuthDb)
      → Keeps db (issue_for platform draws now principal password user db).1
  unfolding issue_for
  Keeps-issue_for draws now principal password user db =
      elim (Bool-cases (verify_password platform user.password_hash password)) [
        | inl e ↦ rw e (Keeps-commit db _ (λ r. Keeps-issue_tx draws now principal db r))
        | inr e ↦ rw e (Keeps-try_audit _ _ _ db)
      ]

  pub Keeps-issue :
      (draws : Draws) (now : ℕ) (principal : Principal) (password : String) (db : AuthDb)
      → Keeps db (issue_reauth_token platform draws now principal password db).1
  unfolding issue_reauth_token
  Keeps-issue draws now principal password db =
      elim (Result-cases (get_admin_user_by_id principal.user_id db)) [
        | inl (failure, e) ↦ rw (e, issue_reauth_token) (Keeps-refl db)
        | inr (user, e) ↦
            rw (e, issue_reauth_token) (Keeps-issue_for draws now principal password user db)
      ]

  Keeps-check_reauth :
      (now : ℕ) (principal : Principal) (token_hash scope : String) (found : Option ReauthTokenRow)
      (db : AuthDb) {db' : AuthDb}
      → check_reauth platform now principal token_hash scope found db ≡ ok db'
      → Keeps db db'
  unfolding check_reauth
  Keeps-check_reauth now principal token_hash scope none db h = cc
  Keeps-check_reauth now principal token_hash scope (some token) db h =
      elim (Bool-cases (is_sufficient platform now principal token_hash scope token)) [
        | inl e ↦ rw (← ok_inj _ _ (rw e at h)) (Keeps-tables db _ refl refl)
        | inr e ↦ cc (rw e at h)
      ]

  pub Keeps-require :
      (now : ℕ) (principal : Principal) (token scope : String) (db : AuthDb) {db' : AuthDb}
      → require_reauth_token platform now principal token scope db ≡ ok db'
      → Keeps db db'
  unfolding require_reauth_token
  Keeps-require now principal token scope db h = elim (Bool-cases (trim_space token == "")) [
    | inl e ↦ cc (rw e at h)
    | inr e ↦
        (elim (Option-cases (
          parse_opaque_credential platform.hash_opaque_credential credential_prefix_reauth token)) [
            | inl f ↦ cc (rw (e, f, require_reauth_token) at h)
            | inr (parsed, f) ↦
                Keeps-check_reauth now principal parsed.1 scope (get_reauth_token_by_id parsed.0 db)
                  db (rw (e, f, require_reauth_token) at h)
          ])
  ]

  Keeps-change_tx :
      (draws : Draws) (principal : Principal) (password_hash : String) (db : AuthDb)
      (r : Unit {0} × AuthDb)
      → change_tx platform draws principal password_hash db ≡ ok r
      → Keeps db r.1
  unfolding change_tx
  Keeps-change_tx draws principal password_hash db r h =
      let (db', logged, done) = bind-ok _ _ h in
      Keeps-result db _ db' done (
        Keeps-trans
          (Keeps-users platform (has_user_id principal.user_id) (with_password_hash password_hash)
            db (λ user. refl))
          (Keeps-trans (Keeps-tables _ _ refl refl) (Keeps-audit _ _ _ _ logged)))

  Keeps-change_of :
      (draws : Draws) (salt : Bytes) (principal : Principal) (current new : String)
      (user : AdminUserRow) (db : AuthDb)
      → Keeps db (change_password_of platform draws salt principal current new user db).1
  unfolding change_password_of
  Keeps-change_of draws salt principal current new user db =
      elim (Bool-cases (verify_password platform user.password_hash current)) [
        | inl e ↦ (elim (Option-cases (hash_password platform salt new)) [
          | inl f ↦ rw e (rw (f, change_password_of) (Keeps-refl db))
          | inr (password_hash, f) ↦ rw e (
              rw (f, change_password_of)
                (Keeps-commit db _ (λ r. Keeps-change_tx draws principal password_hash db r)))
        ])
        | inr e ↦ rw e (Keeps-try_audit _ _ _ db)
      ]

  pub Keeps-change :
      (draws : Draws) (salt : Bytes) (principal : Principal) (current new : String) (db : AuthDb)
      → Keeps db (change_admin_password platform draws salt principal current new db).1
  unfolding change_admin_password
  Keeps-change draws salt principal current new db =
      elim (Bool-cases (trim_space current == "" || trim_space new == "")) [
        | inl e ↦ rw e (Keeps-refl db)
        | inr e ↦ (elim (Result-cases (get_admin_user_by_id principal.user_id db)) [
          | inl (failure, f) ↦ rw e (rw (f, change_admin_password) (Keeps-refl db))
          | inr (user, f) ↦ rw e (
              rw (f, change_admin_password)
                (Keeps-change_of draws salt principal (trim_space current) (trim_space new) user
                  db))
        ])
      ]

  Keeps-rejection :
      (draws : Draws) (now : ℕ) (principal : Principal) (event_type : String) (failure : Failure)
      (db : AuthDb)
      → Keeps db (audit_rejection platform draws now principal event_type failure db)
  unfolding audit_rejection
  Keeps-rejection draws now principal event_type err_reauth_required db = Keeps-try_audit _ _ _ db
  Keeps-rejection draws now principal event_type _ db = Keeps-refl db

  pub Keeps-critical :
      (draws : Draws) (now : ℕ) (principal : Principal) (token event_type project_name : String)
      (db : AuthDb)
      → Keeps db
          (require_critical_reauth platform draws now principal token event_type project_name db).1
  unfolding require_critical_reauth
  Keeps-critical draws now principal token event_type project_name db =
      elim (Result-cases
        (require_reauth_token platform now principal token reauth_scope_critical_mutation db)) [
          | inl (failure, e) ↦
              rw (e, require_critical_reauth)
                (Keeps-rejection draws now principal event_type failure db)
          | inr (db', e) ↦
              rw (e, require_critical_reauth)
                (Keeps-trans (Keeps-require now principal token reauth_scope_critical_mutation db e)
                  (Keeps-try_audit _ _ _ db'))
        ]
