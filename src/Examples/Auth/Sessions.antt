-- ===== src/Examples/Auth/Sessions.antt =====
-- An administrator, API keys and reauthentication through cmd/brain/auth_store.go.
use ovek.Common.{
  ◌+◌, ◌≤◌, ◌≡◌, ◌↔◌, refl, String, false, some, [], ◌∷◌, trim_space, text_append, split_on,
}
use ovek.Scrubber.{bytes_eq}
use ovek.Store.{Failure, auth_failure, err_reauth_required}
use ovek.Store.Sql.{Result, ok, err, select_row, count_where, exists_where, update_where}
use ovek.Credentials.{
  is_word, join_credential, split_underscore, new_opaque_credential, parse_parts,
  parse_opaque_credential,
}
use ovek.Auth.{
  AdminUserRow, ApiKeyRow, AuthDb, Principal, Draws, is_set, has_user_id, has_key_id,
  count_admin_users, insert_admin_user, insert_api_key, insert_reauth_token, with_defaults,
  insert_audit_row, insert_audit_log, get_admin_user_by_id, must_details_json,
}
use ovek.Auth.Passwords.{join_hash, hash_password, check_key, verify_parts, verify_password}
use ovek.Auth.ApiKeys.{
  credential_prefix_api_key, api_key_row, create_api_key_tx, bootstrap_tx, bootstrap_admin_user,
  revoke_api_key, check_api_key, join_key, check_joined, validate_api_key,
}
use ovek.Auth.ApiKeys.Acceptance.{validate_sound, validate-bootstrapped}
use ovek.Auth.History.{
  empty_tables, here, next, bootstraps, issues, Reaches, bootstrap_once, revoked_forever,
}
use ovek.Auth.Reauth.{
  reauth_scope_critical_mutation, reauth_token_ttl, reauth_token_row, issue_tx, issue_for,
  issue_reauth_token, require_reauth_token, change_tx, change_password_of, change_admin_password,
}
use ovek.Auth.Reauth.Acceptance.{require-changed, require-issued_iff}
use ovek.Examples.Auth.{pad, codes, unary, encode, decode, parse-format, demo_platform}

abbrev draws : Draws
draws = record { credential_id = "0af3"; secret = "77be"; audit_id = "log1"; now = "t1" }

abbrev draws2 : Draws
draws2 = record { credential_id = "19cc"; secret = "03d1"; audit_id = "log2"; now = "t2" }

abbrev ada : Principal
ada = record { user_id = "u1"; username = "ada"; api_key_id = "0af3" }

unfoldable bootstrap_ada : AuthDb → Result (String × AuthDb)
unfolding bootstrap_admin_user bootstrap_tx create_api_key_tx api_key_row insert_admin_user
    insert_api_key insert_audit_log insert_audit_row with_defaults must_details_json
    new_opaque_credential join_credential exists_where count_where count_admin_users hash_password
    join_hash pad codes unary encode trim_space text_append
bootstrap_ada db = bootstrap_admin_user demo_platform draws "u1" (1 ∷ []) " ada " "open sesame" db

abbrev db_of : {A : Type 0} → Result (A × AuthDb) → AuthDb
db_of (ok r) = r.1
db_of (err e) = empty_tables

abbrev ada_db : AuthDb
ada_db = db_of (bootstrap_ada empty_tables)

ada_db-ok : (api_key : String) × (bootstrap_ada empty_tables ≡ ok (api_key, ada_db))
unfolding bootstrap_ada
ada_db-ok = (_, refl)

validate-bootstrapped_example :
    (db' : AuthDb) × (validate_api_key demo_platform "t2" ada_db-ok.0 ada_db
      ≡ ok (record { user_id = "u1"; username = trim_space " ada "; api_key_id = "0af3" }, db'))
unfolding bootstrap_ada is_word
validate-bootstrapped_example =
    validate-bootstrapped demo_platform draws "u1" (1 ∷ []) " ada " "open sesame" ada_db-ok.0 "t2"
      empty_tables ada_db refl refl ada_db-ok.1

unfoldable validated : Result (Principal × AuthDb)
unfolding bootstrap_ada validate_api_key parse_opaque_credential split_underscore parse_parts
    trim_space check_joined join_key check_api_key select_row update_where text_append
validated = validate_api_key demo_platform "t2" "ak_0af3_77be" ada_db

validated-ok : (db' : AuthDb) × (validated ≡ ok (ada, db'))
unfolding validated
validated-ok = (_, refl)

validate_sound_example :
    (key : ApiKeyRow) × (user : AdminUserRow) × (select_row (has_key_id "0af3") ada_db.api_keys
      ≡ some key)
    × (select_row (has_user_id "u1") ada_db.admin_users ≡ some user)
    × (key.user_id ≡ "u1")
    × (user.username ≡ "ada")
    × (is_set key.revoked_at ≡ false)
    × (is_set user.disabled_at ≡ false)
    × (key.key_hash ≡ demo_platform.hash_opaque_credential "ak_0af3_77be")
unfolding validated
validate_sound_example =
    validate_sound demo_platform "t2" "ak_0af3_77be" ada_db ada validated-ok.0 validated-ok.1

unfoldable issued : (Result (String × String)) × AuthDb
unfolding bootstrap_ada issue_reauth_token issue_for issue_tx reauth_token_row insert_reauth_token
    insert_audit_log insert_audit_row with_defaults must_details_json new_opaque_credential
    join_credential exists_where select_row update_where get_admin_user_by_id verify_password
    verify_parts check_key bytes_eq split_on pad codes unary encode decode text_append
issued = issue_reauth_token demo_platform draws2 7 ada "open sesame" ada_db

abbrev token_of : Result (String × String) → String × String
token_of (ok r) = r
token_of (err e) = ("", "")

issued-ok : issued ≡ (ok (token_of issued.0), issued.1)
unfolding issued
issued-ok = refl

require-issued_iff_example :
    ((db'' : AuthDb) × (require_reauth_token demo_platform 9 ada
          (token_of issued.0).0
          reauth_scope_critical_mutation
          issued.1
        ≡ ok db''))
    ↔ (9 ≤ 7 + reauth_token_ttl)
unfolding issued is_word
require-issued_iff_example =
    require-issued_iff demo_platform draws2 7 9 ada "open sesame" (token_of issued.0).0
      (token_of issued.0).1 ada_db issued.1 parse-format refl refl issued-ok

unfoldable changed_db : (Result (Unit {0})) × AuthDb
unfolding issued bootstrap_ada change_admin_password change_password_of change_tx insert_audit_log
    insert_audit_row with_defaults must_details_json exists_where select_row update_where
    get_admin_user_by_id hash_password join_hash verify_password verify_parts check_key bytes_eq
    split_on pad codes unary encode decode text_append trim_space
changed_db =
    change_admin_password demo_platform (record draws2 { audit_id = "log3" }) (2 ∷ []) ada
      "open sesame" "new pw" issued.1

changed-ok : changed_db ≡ (ok tt, changed_db.1)
unfolding changed_db
changed-ok = refl

require-changed_example :
    require_reauth_token demo_platform 9 ada "rt_19cc_03d1" reauth_scope_critical_mutation
      changed_db.1
    ≡ err err_reauth_required
unfolding changed_db
require-changed_example =
    require-changed demo_platform (record draws2 { audit_id = "log3" }) (2 ∷ []) ada ada
      "open sesame" "new pw" "rt_19cc_03d1" reauth_scope_critical_mutation 9 issued.1 changed_db.1
      changed-ok refl

later : Reaches demo_platform ada_db issued.1
unfolding issued
later = next here (issues draws2 7 ada "open sesame" ada_db)

bootstrap_once_example :
    (failure : Failure) × (bootstrap_admin_user demo_platform draws2 "u2"
        (3 ∷ [])
        "eve"
        "let me in"
        issued.1
      ≡ err failure)
unfolding bootstrap_ada
bootstrap_once_example =
    bootstrap_once demo_platform draws draws2 "u1" "u2" (1 ∷ []) (3 ∷ []) " ada " "open sesame"
      "eve" "let me in" ada_db-ok.0 empty_tables ada_db issued.1 ada_db-ok.1 later

started : Reaches demo_platform empty_tables issued.1
unfolding bootstrap_ada issued
started =
    next
      (next here (
        bootstraps draws "u1" (1 ∷ []) " ada " "open sesame" ada_db-ok.0 empty_tables ada_db
          ada_db-ok.1))
      (issues draws2 7 ada "open sesame" ada_db)

unfoldable revoke_ada : AuthDb → Result AuthDb
unfolding issued revoke_api_key count_where update_where insert_audit_log insert_audit_row
    with_defaults must_details_json exists_where trim_space
revoke_ada db = revoke_api_key demo_platform (record draws2 { audit_id = "log4" }) ada " 0af3 " db

abbrev rows_of : Result AuthDb → AuthDb
rows_of (ok db) = db
rows_of (err e) = empty_tables

revoked-ok : revoke_ada issued.1 ≡ ok (rows_of (revoke_ada issued.1))
unfolding revoke_ada
revoked-ok = refl

parsed_key :
    (h : String) × (parse_opaque_credential demo_platform.hash_opaque_credential
        credential_prefix_api_key "ak_0af3_77be"
      ≡ some (trim_space " 0af3 ", h))
unfolding parse_opaque_credential split_underscore parse_parts trim_space
parsed_key = (_, refl)

revoked_forever_example :
    (reason : String) × (validate_api_key demo_platform "t9" "ak_0af3_77be"
        (rows_of (revoke_ada issued.1))
      ≡ err (auth_failure reason))
unfolding revoke_ada
revoked_forever_example =
    revoked_forever demo_platform (record draws2 { audit_id = "log4" }) ada " 0af3 " "t9"
      "ak_0af3_77be" parsed_key.0 issued.1 (rows_of (revoke_ada issued.1))
      (rows_of (revoke_ada issued.1)) started revoked-ok here parsed_key.1
