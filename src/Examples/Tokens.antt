-- ===== src/Examples/Tokens.antt =====
-- A trigger token through cmd/brain/workflow_trigger_tokens.go.
use ovek.Common.{◌≡◌, refl, String, true, none, some, [], ◌∷◌, trim_space, text_append}
use ovek.Store.{Db, ProjectStatus, err_invalid_workflow_trigger_token}
use ovek.Store.Sql.{Result, ok, err, select_row, count_where, exists_where, update_where}
use ovek.Workflows.{get_workflow_definition_query}
use ovek.Credentials.{
  is_word, join_credential, split_underscore, new_opaque_credential, parse_parts,
  parse_opaque_credential,
}
use ovek.Credentials.RoundTrip.{parse-new_credential}
use ovek.TriggerTokens.{
  CreatedToken, insert_token, create_workflow_trigger_token, revoke_workflow_trigger_token,
  validate_workflow_trigger_token,
}
use ovek.TriggerTokens.Validity.{validate-revoked}
use ovek.TriggerTokens.Creation.{validate-created}

-- A stand-in for the SHA-256 sum.
abbrev marked : String → String
marked plaintext = text_append "sum of " plaintext

abbrev demo_db : Db
demo_db = record {
  projects =
      record {
        name = "demo";
        status = ProjectStatus.idle;
        current_deployment_id = none;
        created_at = "t0";
      }
      ∷ [];
  deployments = [];
  jobs = [];
  project_config_revisions = [];
  workflows =
      record {
        project_name = "demo";
        name = "nightly";
        source_image_ref = "demo:1";
        resolved_repo_digest = none;
        runtime_image_id = none;
        schedule = none;
        queue_cap = 64;
        enabled = true;
        created_at = "t0";
        updated_at = "t0";
      }
      ∷ [];
  workflow_runs = [];
  workflow_trigger_tokens = [];
}

parse-new_credential_example :
    parse_opaque_credential marked "wft" (new_opaque_credential marked "wft" "0af3" "77be").0
    ≡ some (
      (new_opaque_credential marked "wft" "0af3" "77be").1,
      (new_opaque_credential marked "wft" "0af3" "77be").2,
    )
unfolding is_word
parse-new_credential_example = parse-new_credential marked "wft" "0af3" "77be" refl refl refl

abbrev token_db_of : Result (CreatedToken × Db) → Db
token_db_of (ok r) = r.1
token_db_of (err e) = demo_db

unfoldable create_ci : Db → Result (CreatedToken × Db)
unfolding create_workflow_trigger_token new_opaque_credential join_credential insert_token
    exists_where select_row get_workflow_definition_query trim_space text_append
create_ci db = create_workflow_trigger_token marked "0af3" "77be" "t1" "demo" "nightly" " ci " db

abbrev token_db : Db
token_db = token_db_of (create_ci demo_db)

token_db-ok : (created : CreatedToken) × (create_ci demo_db ≡ ok (created, token_db))
unfolding create_ci
token_db-ok = (_, refl)

validate-created_example :
    (db' : Db) × (validate_workflow_trigger_token marked "t2" token_db-ok.0.project_name
        token_db-ok.0.workflow_name token_db-ok.0.token token_db
      ≡ ok (token_db-ok.0.id, db'))
unfolding create_ci is_word
validate-created_example =
    validate-created marked "0af3" "77be" "t1" "t2" "demo" "nightly" " ci " demo_db refl refl
      token_db-ok.1

revoked_db-ok :
    (db' : Db) × (revoke_workflow_trigger_token "t3" "demo" "nightly" "0af3" token_db ≡ ok db')
unfolding create_ci revoke_workflow_trigger_token count_where update_where
revoked_db-ok = (_, refl)

parsed :
    (h : String) × (parse_opaque_credential marked "wft" "wft_0af3_77be"
      ≡ some (trim_space "0af3", h))
unfolding parse_opaque_credential split_underscore parse_parts trim_space
parsed = (_, refl)

validate-revoked_example :
    validate_workflow_trigger_token marked "t4" "demo" "nightly" "wft_0af3_77be" revoked_db-ok.0
    ≡ err err_invalid_workflow_trigger_token
validate-revoked_example =
    validate-revoked marked "t3" "t4" "demo" "nightly" "0af3" "wft_0af3_77be" parsed.0 token_db
      revoked_db-ok.1 parsed.1
