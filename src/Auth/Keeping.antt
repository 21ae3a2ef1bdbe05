-- ===== src/Auth/Keeping.antt =====
-- What the operations of cmd/brain/auth_store.go keep: a revoked key stays revoked, and an
-- administrator stays one.
use ovek.Common.{
  ◌≤◌, ◌≡◌, refl, sym, ap, ◌∙◌, String, Bool, true, false, not, some, List, [], ◌∷◌, ◌++◌, ◌==◌,
  eq_iff, arith, Bool-cases, inl, inr,
}
use ovek.Store.Sql.{Result, ok, err, select_row, count_where, exists_where, update_where}
use ovek.Store.Laws.{changed, changed_option, select_row-update, count-update}
use ovek.Store.Rows.{exists_where-false, count-snoc, select_row-snoc_found}
use ovek.Store.Changes.{count-snoc_first}
use ovek.Auth.{
  AdminUserRow, ApiKeyRow, ReauthTokenRow, AuditLogRow, AuthDb, is_set, is_enabled, has_key_id,
  count_admin_users, insert_admin_user, insert_api_key, insert_reauth_token, insert_audit_row,
  insert_audit_log, try_audit_log,
}

-- A key with the id is there and revoked.
abbrev pub IsRevoked : String → List ApiKeyRow → Type 0
IsRevoked id keys =
    (key : ApiKeyRow) × (select_row (has_key_id id) keys ≡ some key)
    × (is_set key.revoked_at ≡ true)

-- No two keys have the same id.
abbrev pub HaveUniqueIds : List ApiKeyRow → Type 0
HaveUniqueIds keys = (id : String) → count_where (has_key_id id) keys ≤ 1

pub record Keeps (db db' : AuthDb) : Type 0 where
  pub revoked : (id : String) → IsRevoked id db.api_keys → IsRevoked id db'.api_keys
  pub unique : HaveUniqueIds db.api_keys → HaveUniqueIds db'.api_keys
  pub admins : count_admin_users db ≤ count_admin_users db'

pub Keeps-refl : (db : AuthDb) → Keeps db db
Keeps-refl db = record { revoked = λ id h. h; unique = λ h. h; admins = omega arith }

pub Keeps-trans : {a b c : AuthDb} → Keeps a b → Keeps b c → Keeps a c
Keeps-trans k l = record {
  revoked = λ id h. l.revoked id (k.revoked id h);
  unique = λ h. l.unique (k.unique h);
  admins = omega (arith, k.admins, l.admins);
}

pub Keeps-tables :
    (db db' : AuthDb) → db'.api_keys ≡ db.api_keys → db'.admin_users ≡ db.admin_users → Keeps db db'
unfolding count_admin_users
Keeps-tables db db' k u = record {
  revoked = λ id h. rw k h;
  unique = λ h. rw k h;
  admins = rw u (omega arith);
}

revoked-append :
    (id : String) (keys : List ApiKeyRow) (key : ApiKeyRow)
    → IsRevoked id keys
    → IsRevoked id (keys ++ key ∷ [])
revoked-append id keys key (old, found, set) =
    (old, select_row-snoc_found (has_key_id id) keys key old found, set)

pub revoked-update :
    (id : String) (p : ApiKeyRow → Bool) (f : ApiKeyRow → ApiKeyRow) (keys : List ApiKeyRow)
    → ((key : ApiKeyRow) → (f key).id ≡ key.id)
    → ((key : ApiKeyRow) → is_set key.revoked_at ≡ true → is_set (f key).revoked_at ≡ true)
    → IsRevoked id keys
    → IsRevoked id (update_where p f keys)
revoked-update id p f keys same keep (old, found, set) = (
  changed p f old,
  select_row-update (has_key_id id) p f keys (λ key k. ap (λ i. i == id) (same key))
      ∙ ap (changed_option p f) found,
  (elim (Bool-cases (p old)) [ inl e ↦ rw e (keep old set) | inr e ↦ rw e set ]),
)

pub admins-update :
    (p : AdminUserRow → Bool) (f : AdminUserRow → AdminUserRow) (users : List AdminUserRow)
    → ((user : AdminUserRow) → (f user).disabled_at ≡ user.disabled_at)
    → count_where is_enabled (update_where p f users) ≡ count_where is_enabled users
admins-update p f users same =
    count-update is_enabled p f users (λ user m k. ap (λ d. not (is_set d)) (same user))

pub insert_admin_user-ok :
    (user : AdminUserRow) (db : AuthDb) {db' : AuthDb}
    → insert_admin_user user db ≡ ok db'
    → db' ≡ record db { admin_users = db.admin_users ++ user ∷ [] }
unfolding insert_admin_user
insert_admin_user-ok user db h = ground arith

pub insert_api_key-ok :
    (key : ApiKeyRow) (db : AuthDb) {db' : AuthDb}
    → insert_api_key key db ≡ ok db'
    → db' ≡ record db { api_keys = db.api_keys ++ key ∷ [] }
unfolding insert_api_key
insert_api_key-ok key db h = ground arith

unique-update :
    (p : ApiKeyRow → Bool) (f : ApiKeyRow → ApiKeyRow) (keys : List ApiKeyRow)
    → ((key : ApiKeyRow) → (f key).id ≡ key.id)
    → HaveUniqueIds keys
    → HaveUniqueIds (update_where p f keys)
unique-update p f keys same u id =
    omega
      (arith, u id, count-update (has_key_id id) p f keys (λ key m k. ap (λ i. i == id) (same key)))

pub Keeps-keys :
    (p : ApiKeyRow → Bool) (f : ApiKeyRow → ApiKeyRow) (db : AuthDb)
    → ((key : ApiKeyRow) → (f key).id ≡ key.id)
    → ((key : ApiKeyRow) → is_set key.revoked_at ≡ true → is_set (f key).revoked_at ≡ true)
    → Keeps db (record db { api_keys = update_where p f db.api_keys })
unfolding count_admin_users
Keeps-keys p f db same keep = record {
  revoked = λ id r. revoked-update id p f db.api_keys same keep r;
  unique = λ u. unique-update p f db.api_keys same u;
  admins = omega arith;
}

pub new_key-id :
    (key : ApiKeyRow) (db : AuthDb) {db' : AuthDb}
    → insert_api_key key db ≡ ok db'
    → exists_where (has_key_id key.id) db.api_keys ≡ false
unfolding insert_api_key
new_key-id key db h = ground arith

unique-append :
    (key : ApiKeyRow) (db : AuthDb) {db' : AuthDb}
    → insert_api_key key db ≡ ok db'
    → HaveUniqueIds db.api_keys
    → HaveUniqueIds (db.api_keys ++ key ∷ [])
unique-append key db h u id =
    count-snoc_first (has_key_id id) db.api_keys key
      (λ e.
        ap (λ (i : String). count_where (has_key_id i) db.api_keys) (sym ((eq_iff key.id id).0 e))
        ∙ exists_where-false (has_key_id key.id) db.api_keys (new_key-id key db h))
      (u id)

pub insert_reauth_token-ok :
    (token : ReauthTokenRow) (db : AuthDb) {db' : AuthDb}
    → insert_reauth_token token db ≡ ok db'
    → db' ≡ record db { reauth_tokens = db.reauth_tokens ++ token ∷ [] }
unfolding insert_reauth_token
insert_reauth_token-ok token db h = ground arith

-- An audit entry leaves the other tables.
abbrev pub SameTables : AuthDb → AuthDb → Type 0
SameTables db db' =
    (db'.admin_users ≡ db.admin_users)
    × (db'.api_keys ≡ db.api_keys)
    × (db'.reauth_tokens ≡ db.reauth_tokens)

insert_audit_row-same :
    (entry : AuditLogRow) (db : AuthDb) {db' : AuthDb}
    → insert_audit_row entry db ≡ ok db'
    → SameTables db db'
unfolding insert_audit_row
insert_audit_row-same entry db h = ground arith

pub insert_audit_log-same :
    (audit_id now : String) (entry : AuditLogRow) (db : AuthDb) {db' : AuthDb}
    → insert_audit_log audit_id now entry db ≡ ok db'
    → SameTables db db'
unfolding insert_audit_log
insert_audit_log-same audit_id now entry db h = insert_audit_row-same _ db h

pub try_audit_log-same :
    (audit_id now : String) (entry : AuditLogRow) (db : AuthDb)
    → SameTables db (try_audit_log audit_id now entry db)
unfolding try_audit_log
try_audit_log-same audit_id now entry db = go (insert_audit_log audit_id now entry db) refl
  where
    go :
        (r : Result AuthDb)
        → insert_audit_log audit_id now entry db ≡ r
        → SameTables db (elim r [ ok db' ↦ db' | err _ ↦ db ])
    go (ok db') e = insert_audit_log-same audit_id now entry db e
    go (err failure) e = (refl, refl, refl)

pub Keeps-audit :
    (audit_id now : String) (entry : AuditLogRow) (db : AuthDb) {db' : AuthDb}
    → insert_audit_log audit_id now entry db ≡ ok db'
    → Keeps db db'
Keeps-audit audit_id now entry db {db'} h =
    let (users, keys, tokens) = insert_audit_log-same audit_id now entry db h in
    Keeps-tables db db' keys users

pub Keeps-try_audit :
    (audit_id now : String) (entry : AuditLogRow) (db : AuthDb)
    → Keeps db (try_audit_log audit_id now entry db)
Keeps-try_audit audit_id now entry db =
    let (users, keys, tokens) = try_audit_log-same audit_id now entry db in
    Keeps-tables db _ keys users

pub Keeps-user :
    (user : AdminUserRow) (db : AuthDb) {db' : AuthDb}
    → insert_admin_user user db ≡ ok db'
    → Keeps db db'
unfolding count_admin_users
Keeps-user user db h = rw (insert_admin_user-ok user db h) (record {
  revoked = λ id r. r;
  unique = λ h. h;
  admins = omega (arith, count-snoc is_enabled db.admin_users user);
})

pub Keeps-key :
    (key : ApiKeyRow) (db : AuthDb) {db' : AuthDb} → insert_api_key key db ≡ ok db' → Keeps db db'
unfolding count_admin_users
Keeps-key key db h = rw (insert_api_key-ok key db h) (record {
  revoked = λ id r. revoked-append id db.api_keys key r;
  unique = λ u. unique-append key db h u;
  admins = omega arith;
})

pub Keeps-token :
    (token : ReauthTokenRow) (db : AuthDb) {db' : AuthDb}
    → insert_reauth_token token db ≡ ok db'
    → Keeps db db'
Keeps-token token db h = rw (insert_reauth_token-ok token db h) (Keeps-tables db _ refl refl)
