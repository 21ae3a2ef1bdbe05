-- ===== src/TriggerTokens/Validity.antt =====
-- Which trigger tokens cmd/brain/workflow_trigger_tokens.go accepts.
use ovek.Common.{
  ◌≡◌, refl, sym, ap, ◌∙◌, String, Bool, true, false, not, ◌&&◌, ◌||◌, none, some, ◌==◌,
  Option-cases, inl, inr, Bool-cases, trim_space, nat_eq,
}
use ovek.Store.{Db, TriggerTokenRow, err_invalid_workflow_trigger_token}
use ovek.Store.Sql.{ok, err, ok_inj, select_row, count_where, update_where}
use ovek.Store.Laws.{changed, changed_option, select_row-update, select_row-holds}
use ovek.Credentials.{parse_opaque_credential}
use ovek.TriggerTokens.{
  credential_prefix_workflow_trigger_token, is_revoked, is_token, revoked,
  revoke_workflow_trigger_token, check_token, validate_workflow_trigger_token,
}

abbrev revocable : String → String → String → TriggerTokenRow → Bool
revocable token_id p w row = is_token (trim_space token_id) p w row && not (is_revoked row)

revoke-ok :
    (now p w token_id : String) (db : Db) {db' : Db}
    → revoke_workflow_trigger_token now p w token_id db ≡ ok db'
    → db'.workflow_trigger_tokens
      ≡ update_where (revocable token_id p w) (revoked now) db.workflow_trigger_tokens
unfolding revoke_workflow_trigger_token
revoke-ok now p w token_id db h =
    elim (Bool-cases (
      trim_space token_id == ""
      || nat_eq (count_where (revocable token_id p w) db.workflow_trigger_tokens) 0)) [
        | inl e ↦ cc (rw e at h)
        | inr e ↦ sym (ap (λ (d : Db). d.workflow_trigger_tokens) (ok_inj _ _ (rw e at h)))
      ]

changed-revoked :
    (now p w token_id : String) (row : TriggerTokenRow)
    → is_token (trim_space token_id) p w row ≡ true
    → is_revoked (changed (revocable token_id p w) (revoked now) row) ≡ true
changed-revoked now p w token_id row met = elim (Bool-cases (is_revoked row)) [
  | inl e ↦ rw (met, e) e
  | inr e ↦ rw (met, e)
]

module _ (hash : String → String) where
  pub validate-parsed :
      (now p w plaintext token_id token_hash : String) (db : Db)
      → (trim_space plaintext == "") ≡ false
      → parse_opaque_credential hash credential_prefix_workflow_trigger_token plaintext
        ≡ some (token_id, token_hash)
      → validate_workflow_trigger_token hash now p w plaintext db
        ≡ check_token hash token_id token_hash
            (select_row (is_token token_id p w) db.workflow_trigger_tokens)
            db
            now
  unfolding validate_workflow_trigger_token
  validate-parsed now p w plaintext token_id token_hash db e f =
      rw (e, f, validate_workflow_trigger_token)

  validate-blank :
      (now p w plaintext : String) (db : Db)
      → (trim_space plaintext == "") ≡ true
      → validate_workflow_trigger_token hash now p w plaintext db
        ≡ err err_invalid_workflow_trigger_token
  unfolding validate_workflow_trigger_token
  validate-blank now p w plaintext db e = rw e

  check-revoked :
      (token_id token_hash : String) (row : TriggerTokenRow) (db : Db) (now : String)
      → is_revoked row ≡ true
      → check_token hash token_id token_hash (some row) db now
        ≡ err err_invalid_workflow_trigger_token
  unfolding check_token
  check-revoked token_id token_hash row db now e = rw e

  check-none :
      (token_id token_hash : String) (db : Db) (now : String)
      → check_token hash token_id token_hash none db now ≡ err err_invalid_workflow_trigger_token
  unfolding check_token
  check-none token_id token_hash db now = refl

  -- Once a token's id has been revoked for a workflow, no credential with that id is accepted for the
  -- workflow, whatever its secret.
  pub validate-revoked :
      (now later p w token_id plaintext token_hash : String) (db : Db) {db' : Db}
      → revoke_workflow_trigger_token now p w token_id db ≡ ok db'
      → parse_opaque_credential hash credential_prefix_workflow_trigger_token plaintext
        ≡ some (trim_space token_id, token_hash)
      → validate_workflow_trigger_token hash later p w plaintext db'
        ≡ err err_invalid_workflow_trigger_token
  validate-revoked now later p w token_id plaintext token_hash db {db'} h parsed =
      elim (Bool-cases (trim_space plaintext == "")) [
        | inl e ↦ validate-blank later p w plaintext db' e
        | inr e ↦
            validate-parsed later p w plaintext (trim_space token_id) token_hash db' e parsed
            ∙ (elim (Option-cases
                (select_row (is_token (trim_space token_id) p w) db.workflow_trigger_tokens)) [
                  | inl f ↦
                      ap (λ o. check_token hash (trim_space token_id) token_hash o db' later)
                        (looked ∙ ap (changed_option (revocable token_id p w) (revoked now)) f)
                      ∙ check-none (trim_space token_id) token_hash db' later
                  | inr (row, f) ↦
                      ap (λ o. check_token hash (trim_space token_id) token_hash o db' later)
                        (looked ∙ ap (changed_option (revocable token_id p w) (revoked now)) f)
                      ∙ check-revoked (trim_space token_id) token_hash
                          (changed (revocable token_id p w) (revoked now) row) db' later
                          (changed-revoked now p w token_id row (
                            select_row-holds (is_token (trim_space token_id) p w)
                              db.workflow_trigger_tokens row f))
                ])
      ]
    where
      looked :
          select_row (is_token (trim_space token_id) p w) db'.workflow_trigger_tokens
          ≡ changed_option
              (revocable token_id p w)
              (revoked now)
              (select_row (is_token (trim_space token_id) p w) db.workflow_trigger_tokens)
      looked =
          ap (select_row (is_token (trim_space token_id) p w)) (revoke-ok now p w token_id db h)
          ∙ select_row-update (is_token (trim_space token_id) p w) (revocable token_id p w)
              (revoked now) db.workflow_trigger_tokens (λ x k. refl)
