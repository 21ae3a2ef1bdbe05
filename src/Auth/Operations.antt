-- ===== src/Auth/Operations.antt =====
-- Each operation of cmd/brain/auth_store.go keeps revoked keys and administrators.
use ovek.Common.{
  ◌+◌, ◌<◌, ◌≡◌, refl, ap, subst, ◌∙◌, String, Bool, true, false, ◌||◌, Option, none, some, ◌==◌,
  arith, ltb, nat_eq, trim_space, Bool-cases, Option-cases, inl, inr, if◌then◌else◌,
}
use ovek.Scrubber.{Bytes}
use ovek.Store.Sql.{ok, bind-ok, ok_inj, update_where, count_where}
use ovek.Store.Rows.{count-snoc}
use ovek.Credentials.{parse_opaque_credential}
use ovek.Auth.{
  Platform, AdminUserRow, ApiKeyRow, AuthDb, Principal, Draws, is_enabled, has_key_id,
  count_admin_users, insert_admin_user,
}
use ovek.Auth.Passwords.{hash_password}
use ovek.Auth.ApiKeys.{
  CreatedApiKey, credential_prefix_api_key, key_used, key_revoked, is_revocable, api_key_row,
  create_api_key_tx, bootstrap_tx, bootstrap_admin_user, create_labeled_api_key, revoke_api_key,
  check_api_key, join_key, check_joined, validate_api_key,
}
use ovek.Auth.Keeping.{
  Keeps, Keeps-trans, Keeps-audit, Keeps-user, Keeps-key, Keeps-keys, admins-update,
  insert_admin_user-ok,
}

pub Keeps-result :
    {A : Type 0} (db : AuthDb) (value : A) (db' : AuthDb) {r : A × AuthDb}
    → ok (value, db') ≡ ok r
    → Keeps db db'
    → Keeps db r.1
Keeps-result {A} db value db' {r} done k =
    subst (λ (d : AuthDb). Keeps db d) (ap (λ (s : A × AuthDb). s.1) (ok_inj _ _ done)) k

module _ (platform : Platform) where
  Keeps-create :
      (draws : Draws) (user_id label : String) (db : AuthDb) {created : String × String × AuthDb}
      → create_api_key_tx platform draws user_id label db ≡ ok created
      → Keeps db created.2
  unfolding create_api_key_tx
  Keeps-create draws user_id label db h =
      let (db1, inserted, done) = bind-ok _ _ h in
      let k = Keeps-key (api_key_row platform draws user_id label) db inserted in
      rw (← ap (λ (r : String × String × AuthDb). r.2) (ok_inj _ _ done)) k

  -- The row of the first administrator, and what the rest of the transaction keeps.
  pub bootstrap_tx-steps :
      (draws : Draws) (user_id username password_hash : String) (db : AuthDb) {r : String × AuthDb}
      → bootstrap_tx platform draws user_id username password_hash db ≡ ok r
      → (user : AdminUserRow) × (db1 : AuthDb) × (is_enabled user ≡ true)
        × (insert_admin_user user db ≡ ok db1)
        × Keeps db1 r.1
  unfolding bootstrap_tx
  bootstrap_tx-steps draws user_id username password_hash db h =
      let (db1, inserted, rest) = bind-ok _ _ h in
      let (created, made, rest') = bind-ok _ _ rest in
      let (db3, logged, done) = bind-ok _ _ rest' in
      (
        _,
        db1,
        refl,
        inserted,
        Keeps-result db1 _ db3 done (
            Keeps-trans (Keeps-create draws user_id "bootstrap" db1 made)
              (Keeps-audit _ _ _ created.2 logged)),
      )

  pub Keeps-labeled :
      (draws : Draws) (principal : Principal) (label : String) (db : AuthDb)
      {r : CreatedApiKey × AuthDb}
      → create_labeled_api_key platform draws principal label db ≡ ok r
      → Keeps db r.1
  unfolding create_labeled_api_key
  Keeps-labeled draws principal label db h = elim (Bool-cases (trim_space label == "")) [
    | inl e ↦ cc (rw e at h)
    | inr e ↦
        let (created, made, rest) = bind-ok _ _ (rw e at h) in
        let (db2, logged, done) = bind-ok _ _ rest in
        Keeps-result db _ db2 done (
          Keeps-trans (Keeps-create draws principal.user_id (trim_space label) db made)
            (Keeps-audit _ _ _ created.2 logged))
  ]

  pub Keeps-users :
      (p : AdminUserRow → Bool) (f : AdminUserRow → AdminUserRow) (db : AuthDb)
      → ((user : AdminUserRow) → (f user).disabled_at ≡ user.disabled_at)
      → Keeps db (record db { admin_users = update_where p f db.admin_users })
  unfolding count_admin_users
  Keeps-users p f db same = record {
    revoked = λ id r. r;
    unique = λ h. h;
    admins = omega (arith, admins-update p f db.admin_users same);
  }

  pub Keeps-revoke :
      (draws : Draws) (principal : Principal) (key_id : String) (db : AuthDb) {db' : AuthDb}
      → revoke_api_key platform draws principal key_id db ≡ ok db'
      → Keeps db db'
  unfolding revoke_api_key
  Keeps-revoke draws principal key_id db h =
      let p = is_revocable (trim_space key_id) principal.user_id in
      elim (Bool-cases (trim_space key_id == "" || nat_eq (count_where p db.api_keys) 0)) [
        | inl e ↦ cc (rw e at h)
        | inr e ↦
            Keeps-trans (Keeps-keys p (key_revoked draws.now) db (λ key. refl) (λ key k. refl))
              (Keeps-audit _ _ _ _ (rw e at h))
      ]

  Keeps-check :
      (now api_key_hash : String) (key : ApiKeyRow) (user : AdminUserRow) (db : AuthDb)
      {r : Principal × AuthDb}
      → check_api_key platform now api_key_hash key user db ≡ ok r
      → Keeps db r.1
  unfolding check_api_key
  Keeps-check now api_key_hash key user db {r} h =
      rw r_lem (Keeps-keys (has_key_id key.id) (key_used now) db (λ k. refl) (λ k s. s))
    where
      r_lem :
          r.1 ≡ record db { api_keys = update_where (has_key_id key.id) (key_used now) db.api_keys }
      r_lem = ground arith

  Keeps-joined :
      (now api_key_hash : String) (joined : Option (ApiKeyRow × AdminUserRow)) (db : AuthDb)
      {r : Principal × AuthDb}
      → check_joined platform now api_key_hash joined db ≡ ok r
      → Keeps db r.1
  unfolding check_joined
  Keeps-joined now api_key_hash none db h = cc
  Keeps-joined now api_key_hash (some (key, user)) db h = Keeps-check now api_key_hash key user db h

  pub Keeps-validate :
      (now plaintext : String) (db : AuthDb) {r : Principal × AuthDb}
      → validate_api_key platform now plaintext db ≡ ok r
      → Keeps db r.1
  unfolding validate_api_key
  Keeps-validate now plaintext db h = elim (Bool-cases (trim_space plaintext == "")) [
    | inl e ↦ cc (rw e at h)
    | inr e ↦
        (elim (Option-cases (
          parse_opaque_credential platform.hash_opaque_credential credential_prefix_api_key
            plaintext)) [
              | inl f ↦ cc (rw (e, f, validate_api_key) at h)
              | inr (parsed, f) ↦
                  Keeps-joined now parsed.1 (join_key platform parsed.0 db) db
                    (rw (e, f, validate_api_key) at h)
            ])
  ]

  -- bootstrapAdminUser is refused, or runs its transaction where there is no administrator.
  pub bootstrap-steps :
      (draws : Draws) (user_id : String) (salt : Bytes) (username password : String) (db : AuthDb)
      {r : String × AuthDb}
      → bootstrap_admin_user platform draws user_id salt username password db ≡ ok r
      → (password_hash : String) × (ltb 0 (count_admin_users db) ≡ false)
        × (bootstrap_tx platform draws user_id (trim_space username) password_hash db ≡ ok r)
  unfolding bootstrap_admin_user
  bootstrap-steps draws user_id salt username password db h =
      elim (Bool-cases (trim_space username == "" || trim_space password == "")) [
        | inl e ↦ cc (rw e at h)
        | inr e ↦ (elim (Option-cases (hash_password platform salt (trim_space password))) [
          | inl f ↦ cc (rw (e, f, bootstrap_admin_user) at h)
          | inr (password_hash, f) ↦ (elim (Bool-cases (ltb 0 (count_admin_users db))) [
            | inl g ↦ cc (rw (e, f, bootstrap_admin_user, g) at h)
            | inr g ↦ (password_hash, g, rw (e, f, bootstrap_admin_user, g) at h)
          ])
        ])
      ]

  -- After bootstrapAdminUser there is an administrator.
  pub admins-bootstrapped :
      (draws : Draws) (user_id : String) (salt : Bytes) (username password : String) (db : AuthDb)
      {r : String × AuthDb}
      → bootstrap_admin_user platform draws user_id salt username password db ≡ ok r
      → Keeps db r.1 × (0 < count_admin_users r.1)
  unfolding count_admin_users
  admins-bootstrapped draws user_id salt username password db h =
      let (password_hash, none_yet, ran) =
        bootstrap-steps draws user_id salt username password db h in
      let (user, db1, enabled, inserted, rest) =
        bootstrap_tx-steps draws user_id (trim_space username) password_hash db ran in
      let users = insert_admin_user-ok user db inserted in
      let more =
        ap (λ (d : AuthDb). count_where is_enabled d.admin_users) users
        ∙ count-snoc is_enabled db.admin_users user
        ∙ ap (λ (b : Bool). count_where is_enabled db.admin_users + (if b then 1 else 0)) enabled in
      (Keeps-trans (Keeps-user user db inserted) rest, omega (arith, more, rest.admins))
