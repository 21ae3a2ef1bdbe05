-- ===== src/Auth/Reauth/Acceptance.antt =====
-- Which tokens requireReauthToken accepts (cmd/brain/auth_store.go).
use ovek.Common.{
  ℕ, ◌≤◌, ◌+◌, ◌≡◌, ◌↔◌, refl, sym, ap, ◌∙◌, String, Bool, true, false, not, ◌||◌, Option, none,
  some, ◌==◌, eq_refl, arith, ltb, trim_space, Bool-cases, Option-cases, inl, inr, if◌then◌else◌,
}
use ovek.Scrubber.{Bytes}
use ovek.Store.{err_reauth_required}
use ovek.Store.Sql.{
  Result, ok, err, bind-ok, ok_inj, select_row, exists_where, update_where, Result-cases,
}
use ovek.Store.Laws.{changed, changed_option, select_row-update}
use ovek.Store.Rows.{exists_where-false, select_row-count_zero, select_row-snoc_none}
use ovek.Credentials.{is_plain, is_word, new_opaque_credential, parse_opaque_credential}
use ovek.Credentials.RoundTrip.{parse-new_credential, new-id, parsed-not_blank}
use ovek.Auth.{
  Platform, AdminUserRow, ReauthTokenRow, AuthDb, Principal, Draws, is_set, has_reauth_id,
  insert_reauth_token, get_admin_user_by_id, get_reauth_token_by_id,
}
use ovek.Auth.Passwords.{hash_password, verify_password}
use ovek.Auth.Reauth.{
  credential_prefix_reauth, reauth_scope_critical_mutation, reauth_token_ttl, commit,
  reauth_token_row, issue_tx, issue_for, issue_reauth_token, is_open_token, token_revoked,
  has_expired, is_sufficient, check_reauth, require_reauth_token, change_tx, change_password_of,
  change_admin_password,
}
use ovek.Auth.Keeping.{insert_audit_log-same, insert_reauth_token-ok}

commit-ok :
    {A : Type 0} (db : AuthDb) (r : Result (A × AuthDb)) (value : A) (db' : AuthDb)
    → commit db r ≡ (ok value, db')
    → r ≡ ok (value, db')
commit-ok db (ok a) value db' h = ground arith
commit-ok db (err e) value db' h = cc

module _ (platform : Platform) where
  change_tx-tokens :
      (draws : Draws) (principal : Principal) (password_hash : String) (db : AuthDb)
      (r : Unit {0} × AuthDb)
      → change_tx platform draws principal password_hash db ≡ ok r
      → r.1.reauth_tokens
        ≡ update_where (is_open_token principal.user_id) (token_revoked draws.now) db.reauth_tokens
  unfolding change_tx
  change_tx-tokens draws principal password_hash db r h =
      let (db', logged, done) = bind-ok _ _ h in
      sym (ap (λ (s : Unit {0} × AuthDb). s.1.reauth_tokens) (ok_inj _ _ done))
      ∙ (insert_audit_log-same _ _ _ _ logged).2

  change_of-tokens :
      (draws : Draws) (salt : Bytes) (principal : Principal) (current new : String)
      (user : AdminUserRow) (db db' : AuthDb)
      → change_password_of platform draws salt principal current new user db ≡ (ok tt, db')
      → db'.reauth_tokens
        ≡ update_where (is_open_token principal.user_id) (token_revoked draws.now) db.reauth_tokens
  unfolding change_password_of
  change_of-tokens draws salt principal current new user db db' h =
      elim (Bool-cases (verify_password platform user.password_hash current)) [
        | inl e ↦ (elim (Option-cases (hash_password platform salt new)) [
          | inl f ↦ cc (rw (e, f, change_password_of) at h)
          | inr (password_hash, f) ↦
              change_tx-tokens draws principal password_hash db (tt, db')
                (commit-ok db _ tt db' (rw (e, f, change_password_of) at h))
        ])
        | inr e ↦ cc (rw e at h)
      ]

  change-tokens :
      (draws : Draws) (salt : Bytes) (principal : Principal) (current new : String)
      (db db' : AuthDb)
      → change_admin_password platform draws salt principal current new db ≡ (ok tt, db')
      → db'.reauth_tokens
        ≡ update_where (is_open_token principal.user_id) (token_revoked draws.now) db.reauth_tokens
  unfolding change_admin_password
  change-tokens draws salt principal current new db db' h =
      elim (Bool-cases (trim_space current == "" || trim_space new == "")) [
        | inl e ↦ cc (rw e at h)
        | inr e ↦ (elim (Result-cases (get_admin_user_by_id principal.user_id db)) [
          | inl (failure, f) ↦ cc (rw (e, f, change_admin_password) at h)
          | inr (user, f) ↦
              change_of-tokens draws salt principal (trim_space current) (trim_space new) user db
                db' (rw (e, f, change_admin_password) at h)
        ])
      ]

  insufficient_revoked :
      (now : ℕ) (principal : Principal) (token_hash scope : String) (token : ReauthTokenRow)
      → is_set token.revoked_at ≡ true
      → is_sufficient platform now principal token_hash scope token ≡ false
  unfolding is_sufficient
  insufficient_revoked now principal token_hash scope token e = rw e (
      go (
        not (token.user_id == principal.user_id)
        || not (token.api_key_id == principal.api_key_id)
        || not (token.scope == scope)))
    where
      go : (b : Bool) → (if b then false else false) ≡ false
      go true = refl
      go false = refl

  insufficient_other :
      (now : ℕ) (principal : Principal) (token_hash scope : String) (token : ReauthTokenRow)
      → (token.user_id == principal.user_id) ≡ false
      → is_sufficient platform now principal token_hash scope token ≡ false
  unfolding is_sufficient
  insufficient_other now principal token_hash scope token e = rw e

  -- A token of another user, or a revoked one, does not suffice.
  insufficient_changed :
      (now : ℕ) (principal : Principal) (user_id revoked_at token_hash scope : String)
      (token : ReauthTokenRow)
      → principal.user_id ≡ user_id
      → is_sufficient platform now principal token_hash scope
          (changed (is_open_token user_id) (token_revoked revoked_at) token)
        ≡ false
  insufficient_changed now principal user_id revoked_at token_hash scope token same =
      elim (Bool-cases (token.user_id == user_id)) [
        | inl e ↦ (elim (Bool-cases (is_set token.revoked_at)) [
          | inl f ↦ rw (e, f) (insufficient_revoked now principal token_hash scope token f)
          | inr f ↦
              rw (e, f)
                (insufficient_revoked now principal token_hash scope
                  (token_revoked revoked_at token) refl)
        ])
        | inr e ↦ rw e (insufficient_other now principal token_hash scope token (rw same e))
      ]

  refused_changed :
      (now : ℕ) (principal : Principal) (user_id revoked_at token_hash scope : String)
      (found : Option ReauthTokenRow) (db : AuthDb)
      → principal.user_id ≡ user_id
      → check_reauth platform now principal token_hash scope
          (changed_option (is_open_token user_id) (token_revoked revoked_at) found)
          db
        ≡ err err_reauth_required
  unfolding check_reauth
  refused_changed now principal user_id revoked_at token_hash scope none db same = refl
  refused_changed now principal user_id revoked_at token_hash scope (some token) db same =
      rw (insufficient_changed now principal user_id revoked_at token_hash scope token same) refl

  require-refused :
      (now : ℕ) (principal : Principal) (token scope : String) (db : AuthDb)
      → ((token_id token_hash : String)
          → check_reauth platform now principal token_hash scope
              (get_reauth_token_by_id token_id db)
              db
            ≡ err err_reauth_required)
      → require_reauth_token platform now principal token scope db ≡ err err_reauth_required
  unfolding require_reauth_token
  require-refused now principal token scope db refuse = elim (Bool-cases (trim_space token == "")) [
    | inl e ↦ rw e
    | inr e ↦
        (elim (Option-cases (
          parse_opaque_credential platform.hash_opaque_credential credential_prefix_reauth token)) [
            | inl f ↦ rw (e, f, require_reauth_token) refl
            | inr (parsed, f) ↦ rw (e, f, require_reauth_token) (refuse parsed.0 parsed.1)
          ])
  ]

  -- After a user's password has been changed, no reauthentication token that was made before is
  -- accepted from any key of the user.
  pub require-changed :
      (draws : Draws) (salt : Bytes) (principal other : Principal)
      (current new token scope : String) (now : ℕ) (db db' : AuthDb)
      → change_admin_password platform draws salt principal current new db ≡ (ok tt, db')
      → other.user_id ≡ principal.user_id
      → require_reauth_token platform now other token scope db' ≡ err err_reauth_required
  unfolding get_reauth_token_by_id
  require-changed draws salt principal other current new token scope now db db' h same =
      require-refused now other token scope db' (λ token_id token_hash.
        ap (λ found. check_reauth platform now other token_hash scope found db')
          (ap (select_row (has_reauth_id token_id))
              (change-tokens draws salt principal current new db db' h)
            ∙ select_row-update (has_reauth_id token_id) (is_open_token principal.user_id)
                (token_revoked draws.now) db.reauth_tokens (λ t k. refl))
        ∙ refused_changed now other principal.user_id draws.now token_hash scope
            (select_row (has_reauth_id token_id) db.reauth_tokens) db' same)

  expired-format :
      (t later : ℕ)
      → platform.parse_time (platform.format_time t) ≡ some t
      → has_expired platform later (platform.format_time t) ≡ ltb t later
  expired-format t later e = rw (e, has_expired)

  sufficient_issued :
      (draws : Draws) (now later : ℕ) (principal : Principal)
      → ((t : ℕ) → platform.parse_time (platform.format_time t) ≡ some t)
      → is_sufficient platform later principal
          (new_opaque_credential platform.hash_opaque_credential credential_prefix_reauth
            draws.credential_id draws.secret).2
          reauth_scope_critical_mutation
          (reauth_token_row platform draws now principal)
        ≡ not (ltb (now + reauth_token_ttl) later)
  unfolding is_sufficient reauth_token_row
  sufficient_issued draws now later principal clock = rw (
    eq_refl principal.user_id,
    eq_refl principal.api_key_id,
    eq_refl
        (new_opaque_credential platform.hash_opaque_credential credential_prefix_reauth
          draws.credential_id draws.secret).2,
    expired-format (now + reauth_token_ttl) later (clock (now + reauth_token_ttl)),
  )

  prefix-plain : is_plain credential_prefix_reauth ≡ true
  unfolding is_plain
  prefix-plain = refl

  new_token-id :
      (token : ReauthTokenRow) (db : AuthDb) {db' : AuthDb}
      → insert_reauth_token token db ≡ ok db'
      → exists_where (has_reauth_id token.id) db.reauth_tokens ≡ false
  unfolding insert_reauth_token
  new_token-id token db h = ground arith

  issue_tx-token :
      (draws : Draws) (now : ℕ) (principal : Principal) (token expires_at : String)
      (db db' : AuthDb)
      → issue_tx platform draws now principal db ≡ ok ((token, expires_at), db')
      → (token
          ≡ (new_opaque_credential platform.hash_opaque_credential credential_prefix_reauth
              draws.credential_id draws.secret).0)
        × (get_reauth_token_by_id draws.credential_id db'
            ≡ some (reauth_token_row platform draws now principal))
  unfolding issue_tx get_reauth_token_by_id reauth_token_row
  issue_tx-token draws now principal token expires_at db db' h =
      let row = reauth_token_row platform draws now principal in
      let (db1, inserted, rest) = bind-ok _ _ h in
      let (db2, logged, done) = bind-ok _ _ rest in
      let q = has_reauth_id draws.credential_id in
      (
        sym (ap (λ (r : (String × String) × AuthDb). r.0.0) (ok_inj _ _ done)),
        ap (λ (r : (String × String) × AuthDb). select_row q r.1.reauth_tokens)
              (sym (ok_inj _ _ done))
            ∙ ap (select_row q) (
                (insert_audit_log-same _ _ _ _ logged).2
                ∙ ap (λ (d : AuthDb). d.reauth_tokens) (insert_reauth_token-ok row db inserted))
            ∙ select_row-snoc_none q db.reauth_tokens row (
                select_row-count_zero q db.reauth_tokens
                  (exists_where-false q db.reauth_tokens (new_token-id row db inserted)))
            ∙ rw (eq_refl draws.credential_id),
      )

  issue-steps :
      (draws : Draws) (now : ℕ) (principal : Principal) (password token expires_at : String)
      (db db' : AuthDb)
      → issue_reauth_token platform draws now principal password db ≡ (ok (token, expires_at), db')
      → issue_tx platform draws now principal db ≡ ok ((token, expires_at), db')
  unfolding issue_reauth_token issue_for
  issue-steps draws now principal password token expires_at db db' h =
      elim (Result-cases (get_admin_user_by_id principal.user_id db)) [
        | inl (failure, f) ↦ cc (rw (f, issue_reauth_token) at h)
        | inr (user, f) ↦
            (elim (Bool-cases (verify_password platform user.password_hash password)) [
              | inl e ↦ commit-ok db _ (token, expires_at) db' (rw (f, issue_reauth_token, e) at h)
              | inr e ↦ cc (rw (f, issue_reauth_token, e) at h)
            ])
      ]

  check_reauth_iff :
      (now : ℕ) (principal : Principal) (token_hash scope : String) (token : ReauthTokenRow)
      (db : AuthDb)
      → ((db' : AuthDb) × (check_reauth platform now principal token_hash scope (some token) db
            ≡ ok db'))
        ↔ (is_sufficient platform now principal token_hash scope token ≡ true)
  unfolding check_reauth
  check_reauth_iff now principal token_hash scope token db =
      elim (Bool-cases (is_sufficient platform now principal token_hash scope token)) [
        | inl e ↦ rw e (λ h. refl, λ h. (_, refl))
        | inr e ↦ rw e (λ h. cc (h.1), λ h. cc)
      ]

  require-parsed :
      (now : ℕ) (principal : Principal) (token scope token_id token_hash : String) (db : AuthDb)
      → parse_opaque_credential platform.hash_opaque_credential credential_prefix_reauth token
        ≡ some (token_id, token_hash)
      → (trim_space token == "") ≡ false
      → require_reauth_token platform now principal token scope db
        ≡ check_reauth platform now principal token_hash scope
            (get_reauth_token_by_id token_id db)
            db
  unfolding require_reauth_token
  require-parsed now principal token scope token_id token_hash db parsed e =
      rw (e, parsed, require_reauth_token) refl

  -- A token that issueReauthToken makes is accepted from the same principal for a critical mutation up
  -- to the end of its lifetime, and not after it.
  pub require-issued_iff :
      (draws : Draws) (now later : ℕ) (principal : Principal) (password token expires_at : String)
      (db db' : AuthDb)
      → ((t : ℕ) → platform.parse_time (platform.format_time t) ≡ some t)
      → is_word draws.credential_id ≡ true
      → is_word draws.secret ≡ true
      → issue_reauth_token platform draws now principal password db ≡ (ok (token, expires_at), db')
      → ((db'' : AuthDb) × (require_reauth_token platform later principal token
              reauth_scope_critical_mutation db'
            ≡ ok db''))
        ↔ (later ≤ now + reauth_token_ttl)
  require-issued_iff draws now later principal password token expires_at db db' clock i s h =
      let hash = platform.hash_opaque_credential in
      let (made, found) =
        issue_tx-token draws now principal token expires_at db db'
          (issue-steps draws now principal password token expires_at db db' h) in
      let parsed =
        parse-new_credential hash credential_prefix_reauth draws.credential_id draws.secret
          prefix-plain i s
        ∙ ap {B = Option (String × String)}
            (λ k. some (
              k,
              (new_opaque_credential hash credential_prefix_reauth draws.credential_id
                  draws.secret).2,
            ))
            (new-id hash credential_prefix_reauth draws.credential_id draws.secret) in
      rw made (
        rw
          (require-parsed later principal _ reauth_scope_critical_mutation draws.credential_id _ db'
            parsed (parsed-not_blank hash credential_prefix_reauth _ parsed))
          (rw found (
            λ ok. within (now + reauth_token_ttl) later (
                sym (sufficient_issued draws now later principal clock)
                ∙ (check_reauth_iff later principal _ reauth_scope_critical_mutation _ db').0 ok),
            λ l. (check_reauth_iff later principal _ reauth_scope_critical_mutation _ db').1 (
                sufficient_issued draws now later principal clock
                ∙ in_time (now + reauth_token_ttl) later l),
          )))
    where
      within : (t later : ℕ) → not (ltb t later) ≡ true → later ≤ t
      within t later e = ground arith

      in_time : (t later : ℕ) → later ≤ t → not (ltb t later) ≡ true
      in_time t later l = ground arith
