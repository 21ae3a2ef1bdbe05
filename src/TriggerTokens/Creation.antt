-- ===== src/TriggerTokens/Creation.antt =====
-- createWorkflowTriggerToken (cmd/brain/workflow_trigger_tokens.go): the token that it makes is accepted.
use ovek.Common.{
  ℕ, ◌≤◌, ◌≡◌, refl, sym, ap, ◌∙◌, String, true, false, Option, none, some, [], ◌∷◌, ◌++◌, arith,
  ◌==◌, eq_refl, Option-cases, inl, inr, Bool-cases, trim_space,
}
use ovek.Store.{Db, TriggerTokenRow}
use ovek.Store.Sql.{
  Result, ok, bind-ok, ok_inj, select_row, count_where, exists_where, update_where,
}
use ovek.Store.Laws.{count_mono}
use ovek.Store.Rows.{exists_where-false, select_row-count_zero, select_row-snoc_none}
use ovek.Workflows.{is_workflow, get_workflow_definition_query}
use ovek.Credentials.{is_plain, is_word, new_opaque_credential}
use ovek.Credentials.RoundTrip.{parse-new_credential, parse-blank, new-id}
use ovek.TriggerTokens.{
  credential_prefix_workflow_trigger_token, CreatedToken, has_token_id, insert_token, is_revoked,
  is_token, used, create_workflow_trigger_token, check_token, validate_workflow_trigger_token,
}
use ovek.TriggerTokens.Validity.{validate-parsed}

module _ (hash : String → String) where
  check-accepts :
      (token_id token_hash : String) (row : TriggerTokenRow) (db : Db) (now : String)
      → is_revoked row ≡ false
      → row.token_hash ≡ token_hash
      → (db' : Db) × (check_token hash token_id token_hash (some row) db now ≡ ok (token_id, db'))
  unfolding check_token
  check-accepts token_id token_hash row db now e f = (
    record db {
      workflow_trigger_tokens =
          update_where (has_token_id token_id) (used now) db.workflow_trigger_tokens;
    },
    rw (e, f, eq_refl token_hash),
  )

  -- The row that a creation stores.
  abbrev token_row : String → String → String → String → String → String → TriggerTokenRow
  token_row credential_id secret now project_name workflow_name label = record {
    id = credential_id;
    project_name = trim_space project_name;
    workflow_name = trim_space workflow_name;
    label = trim_space label;
    token_hash =
        (new_opaque_credential hash credential_prefix_workflow_trigger_token credential_id
          secret).2;
    created_at = now;
    last_used_at = none;
    revoked_at = none;
  }

  insert_token-ok :
      (row : TriggerTokenRow) (db : Db) {db' : Db}
      → insert_token row db ≡ ok db'
      → (count_where (has_token_id row.id) db.workflow_trigger_tokens ≡ 0)
        × (db'.workflow_trigger_tokens ≡ db.workflow_trigger_tokens ++ row ∷ [])
  unfolding insert_token
  insert_token-ok row db {db'} h =
      elim (Bool-cases (exists_where (has_token_id row.id) db.workflow_trigger_tokens)) [
        | inl e ↦ cc (rw e at h)
        | inr e ↦ (
          exists_where-false (has_token_id row.id) db.workflow_trigger_tokens e,
          (elim (Bool-cases
              (exists_where (is_workflow row.project_name row.workflow_name) db.workflows)) [
                | inl k ↦
                    sym (ap (λ (d : Db). d.workflow_trigger_tokens) (ok_inj _ _ (rw (e, k) at h)))
                | inr k ↦ cc (rw (e, k) at h)
              ]),
        )
      ]

  abbrev created_token : String → String → String → String → String → String → CreatedToken
  created_token credential_id secret now project_name workflow_name label = record {
    id = credential_id;
    project_name = trim_space project_name;
    workflow_name = trim_space workflow_name;
    label = trim_space label;
    token =
        (new_opaque_credential hash credential_prefix_workflow_trigger_token credential_id
          secret).0;
    created_at = now;
  }

  create-steps :
      (credential_id secret now project_name workflow_name label : String) (db : Db)
      {created : CreatedToken} {db' : Db}
      → create_workflow_trigger_token hash credential_id secret now project_name workflow_name label
          db
        ≡ ok (created, db')
      → (created ≡ created_token credential_id secret now project_name workflow_name label)
        × (insert_token (token_row credential_id secret now project_name workflow_name label) db
            ≡ ok db')
  unfolding create_workflow_trigger_token new_opaque_credential
  create-steps credential_id secret now project_name workflow_name label db {created} {db'} h =
      elim (Bool-cases (trim_space label == "")) [
        | inl e ↦ cc (rw e at h)
        | inr e ↦
            (elim (Option-cases (
              get_workflow_definition_query (trim_space project_name) (trim_space workflow_name)
                db)) [
                  | inl f ↦ cc (rw (e, f, create_workflow_trigger_token) at h)
                  | inr (workflow, f) ↦
                      let (db1, inserted, done) =
                        bind-ok
                          (insert_token
                            (token_row credential_id secret now project_name workflow_name label)
                            db)
                          (λ d. ok (
                            created_token credential_id secret now project_name workflow_name label,
                            d,
                          ))
                          (rw (e, f, create_workflow_trigger_token) at h) in
                      let same = ok_inj _ _ done in
                      (
                        sym (ap (λ (r : CreatedToken × Db). r.0) same),
                        inserted ∙ ap {B = Result Db} (λ (r : CreatedToken × Db). ok r.1) same,
                      )
                ])
      ]

  prefix-plain : is_plain credential_prefix_workflow_trigger_token ≡ true
  unfolding is_plain
  prefix-plain = refl

  -- A token that has been created is accepted for its workflow.
  pub validate-created :
      (credential_id secret now later project_name workflow_name label : String) (db : Db)
      {created : CreatedToken} {db' : Db}
      → is_word credential_id ≡ true
      → is_word secret ≡ true
      → create_workflow_trigger_token hash credential_id secret now project_name workflow_name label
          db
        ≡ ok (created, db')
      → (db'' : Db) × (validate_workflow_trigger_token hash later created.project_name
            created.workflow_name created.token db'
          ≡ ok (created.id, db''))
  validate-created credential_id secret now later project_name workflow_name label db {created}
        {db'} i s h =
      let (is_created, inserted) =
        create-steps credential_id secret now project_name workflow_name label db h in
      let row = token_row credential_id secret now project_name workflow_name label in
      let (new, tokens) = insert_token-ok row db inserted in
      let plaintext =
        (new_opaque_credential hash credential_prefix_workflow_trigger_token credential_id
          secret).0 in
      let parsed =
        parse-new_credential hash credential_prefix_workflow_trigger_token credential_id secret
          prefix-plain i s in
      let (db'', accepted) = check-accepts credential_id row.token_hash row db' later refl refl in
      rw is_created (
        db'',
        (elim (Bool-cases (trim_space plaintext == "")) [
          | inl e ↦
              cc (parsed, parse-blank hash credential_prefix_workflow_trigger_token plaintext e)
          | inr e ↦
              validate-parsed hash later row.project_name row.workflow_name plaintext credential_id
                row.token_hash db' e
                (parsed
                  ∙ ap {B = Option (String × String)} (λ k. some (k, row.token_hash))
                      (new-id hash credential_prefix_workflow_trigger_token credential_id secret))
              ∙ ap (λ o. check_token hash credential_id row.token_hash o db' later)
                  (looked row tokens new)
              ∙ accepted
        ]),
      )
    where
      looked :
          (row : TriggerTokenRow)
          → db'.workflow_trigger_tokens ≡ db.workflow_trigger_tokens ++ row ∷ []
          → count_where (has_token_id row.id) db.workflow_trigger_tokens ≡ 0
          → select_row
              (is_token row.id row.project_name row.workflow_name)
              db'.workflow_trigger_tokens
            ≡ some row
      looked row tokens new =
          let q = is_token row.id row.project_name row.workflow_name in
          ap (select_row q) tokens
          ∙ select_row-snoc_none q db.workflow_trigger_tokens row (
              select_row-count_zero q db.workflow_trigger_tokens (
                fewer
                  (count_mono (has_token_id row.id) q db.workflow_trigger_tokens
                    (λ y k. ground (arith, k)))
                  new))
          ∙ rw (eq_refl row.id, eq_refl row.project_name, eq_refl row.workflow_name)
        where
          fewer : {m n : ℕ} → m ≤ n → n ≡ 0 → m ≡ 0
          fewer l e = omega arith
