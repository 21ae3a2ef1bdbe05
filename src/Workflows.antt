-- ===== src/Workflows.antt =====
-- Workflow definitions: cmd/brain/workflows.go, and the paths of internal/brainapi/paths.go.
pub mod Definitions
pub mod Deletion
use ovek.Common.{
  ℕ, suc, String, Bool, true, false, not, ◌&&◌, ◌||◌, Option, none, some, List, [], ◌∷◌, ◌++◌, ◌==◌,
  map, text_lt, trim_space, text_append, if◌then◌else◌, nat_eq,
}
use ovek.Store.{
  Db, WorkflowRow, WorkflowRunRow, TriggerTokenRow, Failure, constraint_failed,
  err_workflow_not_found,
}
use ovek.Store.Sql.{
  Result, ok, err, select, select_row, exists_where, count_where, update_where, delete_where,
  order_by, nullable_string,
}
use ovek.Projects.{ensure_project}
use ovek.Jobs.{or_blank}

abbrev pub default_workflow_queue_cap : ℕ
default_workflow_queue_cap = 64

unfoldable pub project_workflows_path : String → String
project_workflows_path project_name =
    text_append "/v1/projects/" (text_append project_name "/workflows")

unfoldable pub project_workflow_path : String → String → String
project_workflow_path project_name workflow_name =
    text_append (project_workflows_path project_name) (text_append "/" workflow_name)

unfoldable pub project_workflow_definition_runs_path : String → String → String
project_workflow_definition_runs_path project_name workflow_name =
    text_append (project_workflow_path project_name workflow_name) "/runs"

unfoldable pub project_workflow_runs_path : String → String
project_workflow_runs_path project_name =
    text_append "/v1/projects/" (text_append project_name "/workflow-runs")

unfoldable pub project_workflow_run_path : String → String → String
project_workflow_run_path project_name run_id =
    text_append (project_workflow_runs_path project_name) (text_append "/" run_id)

unfoldable pub project_workflow_run_logs_path : String → String → String
project_workflow_run_logs_path project_name run_id =
    text_append (project_workflow_run_path project_name run_id) "/logs"

unfoldable pub project_workflow_run_logs_stream_path : String → String → String
project_workflow_run_logs_stream_path project_name run_id =
    text_append (project_workflow_run_logs_path project_name run_id) "/stream"

pub record WorkflowLinks : Type 0 where
  pub self : String
  pub runs : String

-- The struct `Workflow`. A queue cap below 0, which the code takes for 0, is 0 here.
pub record Workflow : Type 0 where
  pub project_name : String
  pub name : String
  pub source_image_ref : String
  pub resolved_repo_digest : String
  pub runtime_image_id : String
  pub schedule : String
  pub queue_cap : ℕ
  pub enabled : Bool
  pub created_at : String
  pub updated_at : String
  pub links : WorkflowLinks

unfoldable pub scan_workflow_definition : WorkflowRow → Workflow
scan_workflow_definition row = record {
  project_name = row.project_name;
  name = row.name;
  source_image_ref = row.source_image_ref;
  resolved_repo_digest = or_blank row.resolved_repo_digest;
  runtime_image_id = or_blank row.runtime_image_id;
  schedule = or_blank row.schedule;
  queue_cap = row.queue_cap;
  enabled = row.enabled;
  created_at = row.created_at;
  updated_at = row.updated_at;
  links = record { self = ""; runs = "" };
}

unfoldable pub decorate_workflow_definition : Workflow → Workflow
decorate_workflow_definition workflow = record workflow {
  links = record {
    self = project_workflow_path workflow.project_name workflow.name;
    runs = project_workflow_definition_runs_path workflow.project_name workflow.name;
  };
}

-- project_name = ? AND name = ?
abbrev pub is_workflow : String → String → WorkflowRow → Bool
is_workflow project_name workflow_name row =
    row.project_name == project_name && row.name == workflow_name

-- getWorkflowDefinitionQuery, which getWorkflowDefinitionTx calls
unfoldable pub get_workflow_definition_query : String → String → Db → Option Workflow
get_workflow_definition_query project_name workflow_name db =
    elim (select_row (is_workflow project_name workflow_name) db.workflows) [
      | none ↦ none
      | some row ↦ some (scan_workflow_definition row)
    ]

unfoldable pub get_workflow_definition : String → String → Db → Result Workflow
get_workflow_definition project_name workflow_name db =
    elim (get_workflow_definition_query project_name workflow_name db) [
      | none ↦ err err_workflow_not_found
      | some workflow ↦ ok (decorate_workflow_definition workflow)
    ]

unfoldable pub list_workflow_definitions : String → Db → List Workflow
list_workflow_definitions project_name db =
    map (λ row. decorate_workflow_definition (scan_workflow_definition row))
      (order_by (λ (a : WorkflowRow) (b : WorkflowRow). text_lt a.name b.name)
        (select (λ row. row.project_name == project_name) db.workflows))

-- listScheduledWorkflowDefinitions (cmd/brain/workflow_scheduler.go)
abbrev pub is_scheduled : WorkflowRow → Bool
is_scheduled row =
    row.enabled && (elim row.schedule [ none ↦ false | some schedule ↦ not (schedule == "") ])

-- ORDER BY project_name ASC, name ASC
abbrev pub earlier_workflow : WorkflowRow → WorkflowRow → Bool
earlier_workflow a b =
    text_lt a.project_name b.project_name
    || (a.project_name == b.project_name && text_lt a.name b.name)

unfoldable pub list_scheduled_workflow_definitions : Db → List Workflow
list_scheduled_workflow_definitions db =
    map (λ row. decorate_workflow_definition (scan_workflow_definition row))
      (order_by earlier_workflow (select is_scheduled db.workflows))

-- The row of the INSERT, or what ON CONFLICT … DO UPDATE makes of the one that is there.
abbrev pub inserted_workflow : Workflow → String → String → WorkflowRow
inserted_workflow workflow created_at now = record {
  project_name = workflow.project_name;
  name = workflow.name;
  source_image_ref = workflow.source_image_ref;
  resolved_repo_digest = nullable_string workflow.resolved_repo_digest;
  runtime_image_id = nullable_string workflow.runtime_image_id;
  schedule = nullable_string workflow.schedule;
  queue_cap = workflow.queue_cap;
  enabled = workflow.enabled;
  created_at = created_at;
  updated_at = now;
}

abbrev pub overwritten_workflow : Workflow → String → WorkflowRow → WorkflowRow
overwritten_workflow workflow now row = record row {
  source_image_ref = workflow.source_image_ref;
  resolved_repo_digest = nullable_string workflow.resolved_repo_digest;
  runtime_image_id = nullable_string workflow.runtime_image_id;
  schedule = nullable_string workflow.schedule;
  queue_cap = workflow.queue_cap;
  enabled = workflow.enabled;
  updated_at = now;
}

abbrev pub capped : ℕ → ℕ
capped queue_cap = if nat_eq queue_cap 0 then default_workflow_queue_cap else queue_cap

-- upsertWorkflowDefinition, with the clock's reading
unfoldable pub upsert_workflow_definition : String → Workflow → Db → Workflow × Db
upsert_workflow_definition clock workflow db =
    let updated_at = trim_space workflow.updated_at in
    let now = if updated_at == "" then clock else updated_at in
    let given_at = trim_space workflow.created_at in
    let first_at = if given_at == "" then now else given_at in
    let definition = record workflow { queue_cap = capped workflow.queue_cap } in
    let db1 = ensure_project workflow.project_name now db in
    let key = is_workflow workflow.project_name workflow.name in
    elim (get_workflow_definition_query workflow.project_name workflow.name db1) [
      | none ↦ (
        decorate_workflow_definition
            (record definition { created_at = first_at; updated_at = now }),
        record db1 { workflows = db1.workflows ++ inserted_workflow definition first_at now ∷ [] },
      )
      | some existing ↦ (
        decorate_workflow_definition
            (record definition { created_at = existing.created_at; updated_at = now }),
        record db1 {
          workflows = update_where key (overwritten_workflow definition now) db1.workflows;
        },
      )
    ]

abbrev pub token_of_workflow : String → String → TriggerTokenRow → Bool
token_of_workflow project_name workflow_name row =
    row.project_name == project_name && row.workflow_name == workflow_name

abbrev pub run_of_workflow : String → String → WorkflowRunRow → Bool
run_of_workflow project_name workflow_name row =
    row.project_name == project_name && row.workflow_name == workflow_name

-- DELETE FROM workflows WHERE …, which the foreign keys of a run and of a token refuse.
unfoldable pub delete_workflow_row : String → String → Db → Result (ℕ × Db)
delete_workflow_row project_name workflow_name db =
    let rows_affected = count_where (is_workflow project_name workflow_name) db.workflows in
    if not (nat_eq rows_affected 0)
      && (exists_where (run_of_workflow project_name workflow_name) db.workflow_runs
          || exists_where (token_of_workflow project_name workflow_name) db.workflow_trigger_tokens)
    then err constraint_failed
    else ok (
      rows_affected,
      record db { workflows = delete_where (is_workflow project_name workflow_name) db.workflows },
    )

-- deleteWorkflowDefinition: any number of rows but one is reported as a missing workflow.
unfoldable pub delete_workflow_definition : String → String → Db → Result Db
delete_workflow_definition project_name workflow_name db =
    let db1 = record db {
      workflow_trigger_tokens =
          delete_where (token_of_workflow project_name workflow_name) db.workflow_trigger_tokens;
    } in
    elim (delete_workflow_row project_name workflow_name db1) [
      | err failure ↦ err failure
      | ok (rows_affected, db2) ↦
          if nat_eq rows_affected 1 then ok db2 else err err_workflow_not_found
    ]

-- clearProjectWorkflowState (cmd/brain/cleanup.go)
unfoldable pub clear_project_workflow_state : String → Db → Db
clear_project_workflow_state project_name db = record db {
  workflow_trigger_tokens =
      delete_where (λ row. row.project_name == project_name) db.workflow_trigger_tokens;
  workflow_runs = delete_where (λ row. row.project_name == project_name) db.workflow_runs;
  workflows = delete_where (λ row. row.project_name == project_name) db.workflows;
}
