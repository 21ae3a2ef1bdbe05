-- ===== src/TriggerTokens.antt =====
-- Workflow trigger tokens: cmd/brain/workflow_trigger_tokens.go. The audit log is left out.
pub mod Validity
pub mod Creation
use ovek.Common.{
  ℕ, String, Bool, true, false, not, ◌&&◌, ◌||◌, Option, none, some, List, [], ◌∷◌, ◌++◌, ◌==◌, map,
  text_lt, trim_space, nat_eq, if◌then◌else◌,
}
use ovek.Store.{
  Db, TriggerTokenRow, Failure, constraint_failed, err_workflow_not_found, label_required,
  err_invalid_workflow_trigger_token, err_workflow_trigger_token_not_found,
}
use ovek.Store.Sql.{
  Result, ok, err, ◌>>=◌, ◌>>◌, select, select_row, exists_where, count_where, update_where,
  order_by,
}
use ovek.Jobs.{or_blank}
use ovek.Workflows.{
  is_workflow, token_of_workflow, get_workflow_definition, get_workflow_definition_query,
}
use ovek.Credentials.{new_opaque_credential, parse_opaque_credential}

abbrev pub credential_prefix_workflow_trigger_token : String
credential_prefix_workflow_trigger_token = "wft"

-- CreateWorkflowTriggerTokenResponse
pub record CreatedToken : Type 0 where
  pub id : String
  pub project_name : String
  pub workflow_name : String
  pub label : String
  pub token : String
  pub created_at : String

-- WorkflowTriggerTokenSummary
pub record TokenSummary : Type 0 where
  pub id : String
  pub project_name : String
  pub workflow_name : String
  pub label : String
  pub created_at : String
  pub last_used_at : String
  pub revoked_at : String

unfoldable pub scan_workflow_trigger_token_summary : TriggerTokenRow → TokenSummary
scan_workflow_trigger_token_summary row = record {
  id = row.id;
  project_name = row.project_name;
  workflow_name = row.workflow_name;
  label = row.label;
  created_at = row.created_at;
  last_used_at = or_blank row.last_used_at;
  revoked_at = or_blank row.revoked_at;
}

abbrev pub has_token_id : String → TriggerTokenRow → Bool
has_token_id token_id row = row.id == token_id

-- INSERT INTO workflow_trigger_tokens
unfoldable pub insert_token : TriggerTokenRow → Db → Result Db
insert_token row db =
    if exists_where (has_token_id row.id) db.workflow_trigger_tokens
      || not (exists_where (is_workflow row.project_name row.workflow_name) db.workflows)
    then err constraint_failed
    else ok (record db { workflow_trigger_tokens = db.workflow_trigger_tokens ++ row ∷ [] })

abbrev pub is_revoked : TriggerTokenRow → Bool
is_revoked row = elim row.revoked_at [ none ↦ false | some _ ↦ true ]

-- id = ? AND project_name = ? AND workflow_name = ?
abbrev pub is_token : String → String → String → TriggerTokenRow → Bool
is_token token_id project_name workflow_name row =
    row.id == token_id && token_of_workflow project_name workflow_name row

abbrev pub revoked : String → TriggerTokenRow → TriggerTokenRow
revoked now row = record row { revoked_at = some now }

abbrev pub used : String → TriggerTokenRow → TriggerTokenRow
used now row = record row { last_used_at = some now }

unfoldable pub list_workflow_trigger_tokens : String → String → Db → Result (List TokenSummary)
list_workflow_trigger_tokens project_name workflow_name db = do
  workflow ← get_workflow_definition project_name workflow_name db
  ok (
      map scan_workflow_trigger_token_summary (
        order_by (λ (a : TriggerTokenRow) (b : TriggerTokenRow). text_lt b.created_at a.created_at)
          (select (token_of_workflow project_name workflow_name) db.workflow_trigger_tokens)))

-- revokeWorkflowTriggerToken, with the clock's reading
unfoldable pub revoke_workflow_trigger_token : String → String → String → String → Db → Result Db
revoke_workflow_trigger_token now project_name workflow_name token_id db =
    let trimmed = trim_space token_id in
    let condition : TriggerTokenRow → Bool =
      λ row. is_token trimmed project_name workflow_name row && not (is_revoked row) in
    if trimmed == "" || nat_eq (count_where condition db.workflow_trigger_tokens) 0
    then err err_workflow_trigger_token_not_found
    else ok (record db {
      workflow_trigger_tokens = update_where condition (revoked now) db.workflow_trigger_tokens;
    })

module _ (hash_opaque_credential : String → String) where
  -- createWorkflowTriggerToken, with the random id and secret and the clock's reading
  unfoldable pub create_workflow_trigger_token :
      String → String → String → String → String → String → Db → Result (CreatedToken × Db)
  create_workflow_trigger_token credential_id secret now project_name workflow_name label db =
      let project = trim_space project_name in
      let workflow = trim_space workflow_name in
      let trimmed = trim_space label in
      let (token, token_id, token_hash) =
        new_opaque_credential hash_opaque_credential credential_prefix_workflow_trigger_token
          credential_id secret in
      let inserted =
        insert_token
          (record {
            id = token_id;
            project_name = project;
            workflow_name = workflow;
            label = trimmed;
            token_hash = token_hash;
            created_at = now;
            last_used_at = none;
            revoked_at = none;
          })
          db in
      if trimmed == ""
      then err label_required
      else elim (get_workflow_definition_query project workflow db) [
        | none ↦ err err_workflow_not_found
        | some _ ↦ do
          db' ← inserted
          ok (
            record {
              id = token_id;
              project_name = project;
              workflow_name = workflow;
              label = trimmed;
              token = token;
              created_at = now;
            },
            db',
          )
      ]

  -- The checks of validateWorkflowTriggerToken on the row that the id finds.
  unfoldable pub check_token :
      String → String → Option TriggerTokenRow → Db → String → Result (String × Db)
  check_token token_id token_hash none db now = err err_invalid_workflow_trigger_token
  check_token token_id token_hash (some row) db now =
      if is_revoked row || not (row.token_hash == token_hash)
      then err err_invalid_workflow_trigger_token
      else ok (
        token_id,
        record db {
          workflow_trigger_tokens =
              update_where (has_token_id token_id) (used now) db.workflow_trigger_tokens;
        },
      )

  unfoldable pub validate_workflow_trigger_token :
      String → String → String → String → Db → Result (String × Db)
  validate_workflow_trigger_token now project_name workflow_name plaintext db =
      if trim_space plaintext == ""
      then err err_invalid_workflow_trigger_token
      else elim (parse_opaque_credential hash_opaque_credential
          credential_prefix_workflow_trigger_token plaintext) [
            | none ↦ err err_invalid_workflow_trigger_token
            | some (token_id, token_hash) ↦
                check_token token_id token_hash
                  (select_row (is_token token_id project_name workflow_name)
                    db.workflow_trigger_tokens)
                  db now
          ]
