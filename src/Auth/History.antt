-- ===== src/Auth/History.antt =====
-- Sequences of the operations of cmd/brain/auth_store.go and cmd/brain/auth_handlers.go, in any order
-- and by any principals, failed ones included.
use ovek.Common.{
  ℕ, ◌<◌, ◌≡◌, refl, sym, ap, ◌∙◌, String, true, false, none, some, [], ◌==◌, arith, ltb, nat_eq,
  trim_space, Bool-cases, Option-cases, inl, inr,
}
use ovek.Scrubber.{Bytes}
use ovek.Store.{Failure, auth_failure}
use ovek.Store.Sql.{ok, err, select_row, update_where, count_where, Result-cases}
use ovek.Store.Laws.{
  changed, changed_option, select_row-update, select_row-holds, row_of_count_pos, row_unique,
  count_mono,
}
use ovek.Store.Order.{mem_of_select_row}
use ovek.Credentials.{parse_opaque_credential}
use ovek.Auth.{
  Platform, AdminUserRow, ApiKeyRow, AuthDb, Principal, Draws, is_set, has_user_id, has_key_id,
  count_admin_users,
}
use ovek.Auth.ApiKeys.{
  CreatedApiKey, credential_prefix_api_key, key_revoked, is_revocable, bootstrap_admin_user,
  create_labeled_api_key, revoke_api_key, check_api_key, join_key, check_joined, validate_api_key,
}
use ovek.Auth.Reauth.{
  issue_reauth_token, require_reauth_token, change_admin_password, require_critical_reauth,
}
use ovek.Auth.Keeping.{
  IsRevoked, HaveUniqueIds, Keeps, Keeps-refl, Keeps-trans, insert_audit_log-same,
}
use ovek.Auth.Operations.{
  Keeps-labeled, Keeps-revoke, Keeps-validate, admins-bootstrapped, bootstrap-steps,
}
use ovek.Auth.Reauth.Keeping.{Keeps-issue, Keeps-require, Keeps-change, Keeps-critical}

-- One operation. Those that may leave an audit entry when they fail step in either case; a failure of
-- the others changes nothing.
pub data Step (platform : Platform) : AuthDb → AuthDb → Type 0 where
  bootstraps :
      (draws : Draws) (user_id : String) (salt : Bytes) (username password api_key : String)
      (db db' : AuthDb)
      → bootstrap_admin_user platform draws user_id salt username password db ≡ ok (api_key, db')
      → Step platform db db'
  creates :
      (draws : Draws) (principal : Principal) (label : String) (created : CreatedApiKey)
      (db db' : AuthDb)
      → create_labeled_api_key platform draws principal label db ≡ ok (created, db')
      → Step platform db db'
  revokes :
      (draws : Draws) (principal : Principal) (key_id : String) (db db' : AuthDb)
      → revoke_api_key platform draws principal key_id db ≡ ok db'
      → Step platform db db'
  validates :
      (now plaintext : String) (principal : Principal) (db db' : AuthDb)
      → validate_api_key platform now plaintext db ≡ ok (principal, db')
      → Step platform db db'
  issues :
      (draws : Draws) (now : ℕ) (principal : Principal) (password : String) (db : AuthDb)
      → Step platform db (issue_reauth_token platform draws now principal password db).1
  requires :
      (now : ℕ) (principal : Principal) (token scope : String) (db db' : AuthDb)
      → require_reauth_token platform now principal token scope db ≡ ok db'
      → Step platform db db'
  changes :
      (draws : Draws) (salt : Bytes) (principal : Principal) (current new : String) (db : AuthDb)
      → Step platform db (change_admin_password platform draws salt principal current new db).1
  guards :
      (draws : Draws) (now : ℕ) (principal : Principal) (token event_type project_name : String)
      (db : AuthDb)
      → Step platform db
          (require_critical_reauth platform draws now principal token event_type project_name db).1

pub data Reaches (platform : Platform) (db : AuthDb) : AuthDb → Type 0 where
  here : Reaches platform db db
  next : {a b : AuthDb} → Reaches platform db a → Step platform a b → Reaches platform db b

-- The tables of a new database.
abbrev pub empty_tables : AuthDb
empty_tables = record { admin_users = []; api_keys = []; reauth_tokens = []; audit_logs = [] }

unique-empty : HaveUniqueIds []
unfolding count_where
unique-empty id = omega arith

module _ (platform : Platform) where
  Keeps-Step : {a b : AuthDb} → Step platform a b → Keeps a b
  Keeps-Step (bootstraps draws user_id salt username password api_key db db' h) =
      (admins-bootstrapped platform draws user_id salt username password db h).0
  Keeps-Step (creates draws principal label created db db' h) =
      Keeps-labeled platform draws principal label db h
  Keeps-Step (revokes draws principal key_id db db' h) =
      Keeps-revoke platform draws principal key_id db h
  Keeps-Step (validates now plaintext principal db db' h) =
      Keeps-validate platform now plaintext db h
  Keeps-Step (issues draws now principal password db) =
      Keeps-issue platform draws now principal password db
  Keeps-Step (requires now principal token scope db db' h) =
      Keeps-require platform now principal token scope db h
  Keeps-Step (changes draws salt principal current new db) =
      Keeps-change platform draws salt principal current new db
  Keeps-Step (guards draws now principal token event_type project_name db) =
      Keeps-critical platform draws now principal token event_type project_name db

  Keeps-Reaches : {a b : AuthDb} → Reaches platform a b → Keeps a b
  Keeps-Reaches {a} here = Keeps-refl a
  Keeps-Reaches (next r step) = Keeps-trans (Keeps-Reaches r) (Keeps-Step step)

  refused-admins :
      (draws : Draws) (user_id : String) (salt : Bytes) (username password : String) (db : AuthDb)
      → 0 < count_admin_users db
      → (failure : Failure) × (bootstrap_admin_user platform draws user_id salt username password db
          ≡ err failure)
  refused-admins draws user_id salt username password db pos =
      elim (Result-cases (bootstrap_admin_user platform draws user_id salt username password db)) [
        | inl e ↦ e
        | inr (r, e) ↦
            let (hash, none_yet, ran) =
              bootstrap-steps platform draws user_id salt username password db e in
            absurd (contradiction (count_admin_users db) pos none_yet)
      ]
    where
      contradiction : (n : ℕ) → 0 < n → ltb 0 n ≡ false → ⊥
      contradiction n p q = ground arith

  -- Once an administrator has been bootstrapped, bootstrapAdminUser is refused, whatever operations ran
  -- in between.
  pub bootstrap_once :
      (draws draws' : Draws) (user_id user_id' : String) (salt salt' : Bytes)
      (username password username' password' api_key : String) (db db' later : AuthDb)
      → bootstrap_admin_user platform draws user_id salt username password db ≡ ok (api_key, db')
      → Reaches platform db' later
      → (failure : Failure) × (bootstrap_admin_user platform draws' user_id' salt' username'
            password' later
          ≡ err failure)
  bootstrap_once draws draws' user_id user_id' salt salt' username password username' password'
        api_key db db' later h r =
      refused-admins draws' user_id' salt' username' password' later (
        omega (
          arith,
          (Keeps-Reaches r).admins,
          (admins-bootstrapped platform draws user_id salt username password db h).1,
        ))

  revoke-steps :
      (draws : Draws) (principal : Principal) (key_id : String) (db db' : AuthDb)
      → revoke_api_key platform draws principal key_id db ≡ ok db'
      → (0 < count_where (is_revocable (trim_space key_id) principal.user_id) db.api_keys)
        × (db'.api_keys
            ≡ update_where
                (is_revocable (trim_space key_id) principal.user_id)
                (key_revoked draws.now)
                db.api_keys)
  unfolding revoke_api_key
  revoke-steps draws principal key_id db db' h =
      let p = is_revocable (trim_space key_id) principal.user_id in
      elim (Bool-cases (trim_space key_id == "")) [
        | inl e ↦ cc (rw e at h)
        | inr e ↦ (elim (Bool-cases (nat_eq (count_where p db.api_keys) 0)) [
          | inl f ↦ cc (rw (e, f) at h)
          | inr f ↦ (positive _ f, (insert_audit_log-same _ _ _ _ (rw (e, f) at h)).1)
        ])
      ]
    where
      positive : (n : ℕ) → nat_eq n 0 ≡ false → 0 < n
      positive n e = ground arith

  revoke-IsRevoked :
      (draws : Draws) (principal : Principal) (key_id : String) (db db' : AuthDb)
      → HaveUniqueIds db.api_keys
      → revoke_api_key platform draws principal key_id db ≡ ok db'
      → IsRevoked (trim_space key_id) db'.api_keys
  revoke-IsRevoked draws principal key_id db db' unique h =
      let id = trim_space key_id in
      let p = is_revocable id principal.user_id in
      let (pos, keys) = revoke-steps draws principal key_id db db' h in
      let (key, found) = row_of_count_pos p db.api_keys pos in
      let met = select_row-holds p db.api_keys key found in
      let member = mem_of_select_row p db.api_keys key found in
      let (first, looked) =
        row_of_count_pos (has_key_id id) db.api_keys (
          omega
            (arith, pos, count_mono (has_key_id id) p db.api_keys (λ k m. ground (arith, m)))) in
      let same =
        row_unique (has_key_id id) db.api_keys first key (unique id) looked member
          (ground (arith, met)) in
      rw keys (
        changed p (key_revoked draws.now) first,
        select_row-update (has_key_id id) p (key_revoked draws.now) db.api_keys (λ k m. refl)
            ∙ ap (changed_option p (key_revoked draws.now)) looked,
        rw (ap p (sym same) ∙ met) refl,
      )

  pub join-found :
      (id : String) (db : AuthDb) (key : ApiKeyRow) (user : AdminUserRow)
      → select_row (has_key_id id) db.api_keys ≡ some key
      → select_row (has_user_id key.user_id) db.admin_users ≡ some user
      → join_key platform id db ≡ some (key, user)
  unfolding join_key
  join-found id db key user f g = rw (f, join_key) (rw g refl)

  join-no_user :
      (id : String) (db : AuthDb) (key : ApiKeyRow)
      → select_row (has_key_id id) db.api_keys ≡ some key
      → select_row (has_user_id key.user_id) db.admin_users ≡ none
      → join_key platform id db ≡ none
  unfolding join_key
  join-no_user id db key f g = rw (f, join_key) (rw g refl)

  check-revoked :
      (now api_key_hash : String) (key : ApiKeyRow) (user : AdminUserRow) (db : AuthDb)
      → is_set key.revoked_at ≡ true
      → (reason : String) × (check_api_key platform now api_key_hash key user db
          ≡ err (auth_failure reason))
  unfolding check_api_key
  check-revoked now api_key_hash key user db set = elim (Bool-cases (is_set user.disabled_at)) [
    | inl e ↦ ("user_disabled", rw e)
    | inr e ↦ ("revoked", rw (e, set))
  ]

  refused-joined :
      (now api_key_hash id : String) (db : AuthDb)
      → IsRevoked id db.api_keys
      → (reason : String) × (check_joined platform now api_key_hash (join_key platform id db) db
          ≡ err (auth_failure reason))
  unfolding check_joined
  refused-joined now api_key_hash id db (key, found, set) =
      elim (Option-cases (select_row (has_user_id key.user_id) db.admin_users)) [
        | inl e ↦ ("not_found", rw (join-no_user id db key found e))
        | inr (user, e) ↦
            rw (join-found id db key user found e) (check-revoked now api_key_hash key user db set)
      ]

  -- In tables that the operations made, once a key has been revoked, validateAPIKey refuses each credential with the key's id, whatever its
  -- secret and whatever operations ran in between.
  pub revoked_forever :
      (draws : Draws) (principal : Principal) (key_id now plaintext api_key_hash : String)
      (db db' later : AuthDb)
      → Reaches platform empty_tables db
      → revoke_api_key platform draws principal key_id db ≡ ok db'
      → Reaches platform db' later
      → parse_opaque_credential platform.hash_opaque_credential credential_prefix_api_key plaintext
        ≡ some (trim_space key_id, api_key_hash)
      → (reason : String) × (validate_api_key platform now plaintext later
          ≡ err (auth_failure reason))
  unfolding validate_api_key
  revoked_forever draws principal key_id now plaintext api_key_hash db db' later start h r parsed =
      elim (Bool-cases (trim_space plaintext == "")) [
        | inl e ↦ ("missing", rw e)
        | inr e ↦
            rw (e, parsed, validate_api_key)
              (refused-joined now api_key_hash (trim_space key_id) later (
                (Keeps-Reaches r).revoked (trim_space key_id) (
                  revoke-IsRevoked draws principal key_id db db'
                    ((Keeps-Reaches start).unique unique-empty) h)))
      ]
