-- ===== src/Auth/ApiKeys/Acceptance.antt =====
-- Which credentials validateAPIKey accepts, and the key that bootstrapAdminUser makes
-- (cmd/brain/auth_store.go).
use mathlib.Core.Option.{some-injective}
use ovek.Common.{
  ◌≡◌, refl, sym, ap, ◌∙◌, String, true, false, Option, none, some, List, [], ◌∷◌, ◌==◌, eq_iff,
  eq_refl, arith, trim_space, Bool-cases, Option-cases, inl, inr,
}
use ovek.Scrubber.{Bytes}
use ovek.Store.Sql.{ok, bind-ok, ok_inj, select_row, exists_where, update_where}
use ovek.Store.Laws.{select_row-holds}
use ovek.Store.Rows.{exists_where-false, select_row-count_zero, select_row-snoc_none}
use ovek.Credentials.{
  is_plain, is_word, new_opaque_credential, parse_parts, parse_opaque_credential, split_underscore,
}
use ovek.Credentials.RoundTrip.{parse-new_credential, new-id, parsed-not_blank}
use ovek.Auth.{
  Platform, AdminUserRow, ApiKeyRow, AuthDb, Principal, Draws, is_set, has_user_id, has_key_id,
  insert_admin_user,
}
use ovek.Auth.ApiKeys.{
  credential_prefix_api_key, key_used, api_key_row, create_api_key_tx, bootstrap_tx,
  bootstrap_admin_user, check_api_key, join_key, check_joined, validate_api_key,
}
use ovek.Auth.Keeping.{insert_admin_user-ok, insert_api_key-ok, insert_audit_log-same, new_key-id}
use ovek.Auth.Operations.{bootstrap-steps}
use ovek.Auth.History.{join-found}

module _ (platform : Platform) where
  join-ok :
      (id : String) (db : AuthDb) (key : ApiKeyRow) (user : AdminUserRow)
      → join_key platform id db ≡ some (key, user)
      → (select_row (has_key_id id) db.api_keys ≡ some key)
        × (select_row (has_user_id key.user_id) db.admin_users ≡ some user)
  unfolding join_key
  join-ok id db key user h = elim (Option-cases (select_row (has_key_id id) db.api_keys)) [
    | inl e ↦ cc (rw (e, join_key) at h)
    | inr (key', e) ↦ (elim (Option-cases (select_row (has_user_id key'.user_id) db.admin_users)) [
      | inl f ↦ cc (rw (e, join_key, f) at h)
      | inr (user', f) ↦
          let same = some-injective _ _ (rw (e, join_key, f) at h) in
          let k = ap (λ (r : ApiKeyRow × AdminUserRow). r.0) same in
          (
            e ∙ ap some k,
            ap (λ (r : ApiKeyRow). select_row (has_user_id r.user_id) db.admin_users) (sym k)
                ∙ f
                ∙ ap (λ (r : ApiKeyRow × AdminUserRow). some r.1) same,
          )
    ])
  ]

  check-ok :
      (now api_key_hash : String) (key : ApiKeyRow) (user : AdminUserRow) (db : AuthDb)
      (principal : Principal) {db' : AuthDb}
      → check_api_key platform now api_key_hash key user db ≡ ok (principal, db')
      → (is_set user.disabled_at ≡ false)
        × (is_set key.revoked_at ≡ false)
        × ((key.key_hash == api_key_hash) ≡ true)
        × (principal
            ≡ record { user_id = key.user_id; username = user.username; api_key_id = key.id })
  unfolding check_api_key
  check-ok now api_key_hash key user db principal h = ground arith

  parse-hash :
      (prefix plaintext id api_key_hash : String)
      → parse_opaque_credential platform.hash_opaque_credential prefix plaintext
        ≡ some (id, api_key_hash)
      → api_key_hash ≡ platform.hash_opaque_credential plaintext
  unfolding parse_opaque_credential parse_parts
  parse-hash prefix plaintext id api_key_hash h = go (split_underscore (trim_space plaintext)) h
    where
      go :
          (parts : List String)
          → parse_parts platform.hash_opaque_credential prefix plaintext parts
            ≡ some (id, api_key_hash)
          → api_key_hash ≡ platform.hash_opaque_credential plaintext
      go [] h = cc
      go (a ∷ []) h = cc
      go (a ∷ b ∷ []) h = cc
      go (a ∷ b ∷ c ∷ []) h = ground arith
      go (a ∷ b ∷ c ∷ d ∷ rest) h = cc

  -- validateAPIKey accepts a credential only for a key that is there and not revoked, of a user who is
  -- not disabled, whose stored hash is the credential's; the principal is that user with that key.
  pub validate_sound :
      (now plaintext : String) (db : AuthDb) (principal : Principal) (db' : AuthDb)
      → validate_api_key platform now plaintext db ≡ ok (principal, db')
      → (key : ApiKeyRow) × (user : AdminUserRow) × (select_row
            (has_key_id principal.api_key_id)
            db.api_keys
          ≡ some key)
        × (select_row (has_user_id principal.user_id) db.admin_users ≡ some user)
        × (key.user_id ≡ principal.user_id)
        × (user.username ≡ principal.username)
        × (is_set key.revoked_at ≡ false)
        × (is_set user.disabled_at ≡ false)
        × (key.key_hash ≡ platform.hash_opaque_credential plaintext)
  unfolding validate_api_key check_joined
  validate_sound now plaintext db principal db' h = elim (Bool-cases (trim_space plaintext == "")) [
    | inl e ↦ cc (rw e at h)
    | inr e ↦
        (elim (Option-cases (
          parse_opaque_credential platform.hash_opaque_credential credential_prefix_api_key
            plaintext)) [
              | inl f ↦ cc (rw (e, f, validate_api_key) at h)
              | inr ((id, api_key_hash), f) ↦ (elim (Option-cases (join_key platform id db)) [
                | inl g ↦ cc (rw (e, f, validate_api_key, g) at h)
                | inr ((key, user), g) ↦
                    let (enabled, valid, matches, same) =
                      check-ok now api_key_hash key user db principal
                        (rw (e, f, validate_api_key, g) at h) in
                    let (k, u) = join-ok id db key user g in
                    let found =
                      (eq_iff key.id id).0 (select_row-holds (has_key_id id) db.api_keys key k) in
                    (
                      key,
                      user,
                      rw same (ap (λ i. select_row (has_key_id i) db.api_keys) found ∙ k),
                      rw same u,
                      rw same refl,
                      rw same refl,
                      valid,
                      enabled,
                      (eq_iff key.key_hash api_key_hash).0 matches
                          ∙ parse-hash credential_prefix_api_key plaintext id api_key_hash f,
                    )
              ])
            ])
  ]

  new_user-id :
      (user : AdminUserRow) (db : AuthDb) {db' : AuthDb}
      → insert_admin_user user db ≡ ok db'
      → exists_where (has_user_id user.id) db.admin_users ≡ false
  unfolding insert_admin_user
  new_user-id user db h = ground arith

  -- The user's row and the key's row after bootstrapAdminUser.
  bootstrap-rows :
      (draws : Draws) (user_id username password_hash api_key : String) (db db' : AuthDb)
      → bootstrap_tx platform draws user_id username password_hash db ≡ ok (api_key, db')
      → (user : AdminUserRow) × (api_key
          ≡ (new_opaque_credential platform.hash_opaque_credential credential_prefix_api_key
              draws.credential_id draws.secret).0)
        × (user.username ≡ username)
        × (user.disabled_at ≡ none)
        × (select_row (has_user_id user_id) db'.admin_users ≡ some user)
        × (select_row (has_key_id draws.credential_id) db'.api_keys
            ≡ some (api_key_row platform draws user_id "bootstrap"))
  unfolding bootstrap_tx create_api_key_tx api_key_row
  bootstrap-rows draws user_id username password_hash api_key db db' h =
      let user : AdminUserRow = record {
        id = user_id;
        username = username;
        password_hash = password_hash;
        created_at = draws.now;
        disabled_at = none;
        last_reauth_at = none;
      } in
      let key = api_key_row platform draws user_id "bootstrap" in
      let (db1, inserted, rest) = bind-ok _ _ h in
      let (created, made, rest') = bind-ok _ _ rest in
      let (db3, logged, done) = bind-ok _ _ rest' in
      let (db2, keyed, done') = bind-ok _ _ made in
      let (users, keys, tokens) = insert_audit_log-same _ _ _ _ logged in
      let is_created = ok_inj _ _ done' in
      let last = ok_inj _ _ done in
      let q = has_user_id user_id in
      let k = has_key_id draws.credential_id in
      (
        user,
        sym (ap (λ (r : String × AuthDb). r.0) last)
            ∙ sym (ap (λ (r : String × String × AuthDb). r.0) is_created),
        refl,
        refl,
        ap (λ (r : String × AuthDb). select_row q r.1.admin_users) (sym last)
            ∙ ap (select_row q) (
                users
                ∙ ap (λ (r : String × String × AuthDb). r.2.admin_users) (sym is_created)
                ∙ ap (λ (d : AuthDb). d.admin_users) (insert_api_key-ok key db1 keyed)
                ∙ ap (λ (d : AuthDb). d.admin_users) (insert_admin_user-ok user db inserted))
            ∙ select_row-snoc_none q db.admin_users user (
                select_row-count_zero q db.admin_users
                  (exists_where-false q db.admin_users (new_user-id user db inserted)))
            ∙ rw (eq_refl user_id),
        ap (λ (r : String × AuthDb). select_row k r.1.api_keys) (sym last)
            ∙ ap (select_row k) (
                keys
                ∙ ap (λ (r : String × String × AuthDb). r.2.api_keys) (sym is_created)
                ∙ ap (λ (d : AuthDb). d.api_keys) (insert_api_key-ok key db1 keyed))
            ∙ select_row-snoc_none k db1.api_keys key (
                select_row-count_zero k db1.api_keys
                  (exists_where-false k db1.api_keys (new_key-id key db1 keyed)))
            ∙ rw (eq_refl draws.credential_id),
      )

  check-accepts :
      (now api_key_hash : String) (key : ApiKeyRow) (user : AdminUserRow) (db : AuthDb)
      → user.disabled_at ≡ none
      → key.revoked_at ≡ none
      → key.key_hash ≡ api_key_hash
      → (db' : AuthDb) × (check_api_key platform now api_key_hash key user db
          ≡ ok (
            record { user_id = key.user_id; username = user.username; api_key_id = key.id },
            db',
          ))
  unfolding check_api_key
  check-accepts now api_key_hash key user db d r e = (
    record db { api_keys = update_where (has_key_id key.id) (key_used now) db.api_keys },
    rw (d, r, e, eq_refl api_key_hash),
  )

  validate-parsed :
      (now plaintext id api_key_hash : String) (db : AuthDb)
      → parse_opaque_credential platform.hash_opaque_credential credential_prefix_api_key plaintext
        ≡ some (id, api_key_hash)
      → validate_api_key platform now plaintext db
        ≡ check_joined platform now api_key_hash (join_key platform id db) db
  unfolding validate_api_key
  validate-parsed now plaintext id api_key_hash db parsed =
      rw
        (
          parsed-not_blank platform.hash_opaque_credential credential_prefix_api_key plaintext
              parsed,
          parsed,
          validate_api_key,
        )
        refl

  prefix-plain : is_plain credential_prefix_api_key ≡ true
  unfolding is_plain
  prefix-plain = refl

  -- The key that bootstrapAdminUser returns is accepted, for the administrator with the trimmed name.
  pub validate-bootstrapped :
      (draws : Draws) (user_id : String) (salt : Bytes) (username password api_key now : String)
      (db db' : AuthDb)
      → is_word draws.credential_id ≡ true
      → is_word draws.secret ≡ true
      → bootstrap_admin_user platform draws user_id salt username password db ≡ ok (api_key, db')
      → (db'' : AuthDb) × (validate_api_key platform now api_key db'
          ≡ ok (
            record {
              user_id = user_id;
              username = trim_space username;
              api_key_id = draws.credential_id;
            },
            db'',
          ))
  unfolding check_joined api_key_row
  validate-bootstrapped draws user_id salt username password api_key now db db' i s h =
      let hash = platform.hash_opaque_credential in
      let (password_hash, none_yet, ran) =
        bootstrap-steps platform draws user_id salt username password db h in
      let (user, made, named, enabled, users, keys) =
        bootstrap-rows draws user_id (trim_space username) password_hash api_key db db' ran in
      let key = api_key_row platform draws user_id "bootstrap" in
      let parsed =
        parse-new_credential hash credential_prefix_api_key draws.credential_id draws.secret
          prefix-plain i s
        ∙ ap {B = Option (String × String)} (λ k. some (k, key.key_hash))
            (new-id hash credential_prefix_api_key draws.credential_id draws.secret) in
      let (db'', accepted) = check-accepts now key.key_hash key user db' enabled refl refl in
      (
        db'',
        rw made (
            validate-parsed now _ draws.credential_id key.key_hash db' parsed
            ∙ ap (λ o. check_joined platform now key.key_hash o db')
                (join-found platform draws.credential_id db' key user keys users)
            ∙ accepted
            ∙ ap
                (λ (name : String). ok (
                  record { user_id = user_id; username = name; api_key_id = draws.credential_id },
                  db'',
                ))
                named),
      )
